-- ===== src/Campaign/Transfer/Rules.antt =====
-- Downloads and clean-ups leave the state and its files alone, and a clean-up never raises.
use kitt.Prelude.{String, Option, none, some, zero, suc}
use kitt.Prelude.Exec.Rules.{Preserves, Returns}
use kitt.Campaign.Config.{CampaignConfig, CampaignRunSpec}
use kitt.Campaign.Session.{World, Attempt, done, import_error, broke, Exit, exited, died}
use kitt.Campaign.Session.Rules.{view, view_rules, session_returns}
use kitt.Campaign.Transfer.{
  after_remote, fetch_remote, after_cli, fetch_cli, after_bridge, fetch_bridge, or_bridge, fetch,
  download_model, remove_bridge, after_remove, remove, cleanup_model,
}

module _ (w : World) (config : CampaignConfig) where
  after_remote-view : (repo : String) (a : Attempt) → Preserves view (after_remote w config repo a)
  unfolding after_remote
  after_remote-view repo (done path) = search view_rules
  after_remote-view repo import_error = search view_rules
  after_remote-view repo (broke e) = search view_rules

  fetch_remote-view :
      (repo : String) (p : Option String) → Preserves view (fetch_remote w config repo p)
  unfolding fetch_remote
  fetch_remote-view repo p = search (view_rules, after_remote-view)

  after_cli-view :
      (run : CampaignRunSpec) (repo : String) (e : Exit)
      → Preserves view (after_cli w config run repo e)
  unfolding after_cli
  after_cli-view run repo (exited zero out) = search view_rules
  after_cli-view run repo (exited (suc code) out) = search view_rules
  after_cli-view run repo (died e) = search view_rules

  fetch_cli-view :
      (run : CampaignRunSpec) (repo : String) → Preserves view (fetch_cli w config run repo)
  unfolding fetch_cli
  fetch_cli-view run repo = search (view_rules, after_cli-view)

  after_bridge-view :
      (run : CampaignRunSpec) (repo : String) (a : Attempt)
      → Preserves view (after_bridge w config run repo a)
  unfolding after_bridge
  after_bridge-view run repo (done path) = search view_rules
  after_bridge-view run repo import_error = fetch_cli-view run repo
  after_bridge-view run repo (broke e) = search view_rules

  fetch_bridge-view :
      (run : CampaignRunSpec) (repo : String) → Preserves view (fetch_bridge w config run repo)
  unfolding fetch_bridge
  fetch_bridge-view run repo = search (view_rules, after_bridge-view, fetch_cli-view)

  or_bridge-view :
      (run : CampaignRunSpec) (repo : String) (p : Option String)
      → Preserves view (or_bridge w config run repo p)
  unfolding or_bridge
  or_bridge-view run repo (some path) = search view_rules
  or_bridge-view run repo none = fetch_bridge-view run repo

  fetch-view :
      (run : CampaignRunSpec) (repo : Option String) → Preserves view (fetch w config run repo)
  unfolding fetch
  fetch-view run none = search view_rules
  fetch-view run (some repo) = search (view_rules, fetch_remote-view, or_bridge-view)

  pub download_model-view : (run : CampaignRunSpec) → Preserves view (download_model w config run)
  unfolding download_model
  download_model-view run = search (view_rules, fetch-view)

  remove_bridge-view : (repo : String) → Preserves view (remove_bridge w config repo)
  unfolding remove_bridge
  remove_bridge-view repo = search view_rules

  after_remove-view : (repo : String) (a : Attempt) → Preserves view (after_remove w config repo a)
  unfolding after_remove
  after_remove-view repo (done path) = search view_rules
  after_remove-view repo import_error = remove_bridge-view repo
  after_remove-view repo (broke e) = remove_bridge-view repo

  pub cleanup_model-view : (repo : Option String) → Preserves view (cleanup_model w config repo)
  unfolding cleanup_model remove
  cleanup_model-view none = search view_rules
  cleanup_model-view (some repo) = search (view_rules, after_remove-view, remove_bridge-view)

  remove_bridge-Returns : (repo : String) → Returns (remove_bridge w config repo)
  unfolding remove_bridge
  remove_bridge-Returns repo = search session_returns

  after_remove-Returns : (repo : String) (a : Attempt) → Returns (after_remove w config repo a)
  unfolding after_remove
  after_remove-Returns repo (done path) = search session_returns
  after_remove-Returns repo import_error = remove_bridge-Returns repo
  after_remove-Returns repo (broke e) = remove_bridge-Returns repo

  -- Whatever the ways to remove a model answer, the clean-up returns.
  pub cleanup_model-Returns : (repo : Option String) → Returns (cleanup_model w config repo)
  unfolding cleanup_model remove
  cleanup_model-Returns none = search session_returns
  cleanup_model-Returns (some repo) =
      search (session_returns, after_remove-Returns, remove_bridge-Returns)
