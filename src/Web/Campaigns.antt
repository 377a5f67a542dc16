-- ===== src/Web/Campaigns.antt =====
-- CampaignService of src/kitt/web/services/campaign_service.py: campaigns are stored, listed, given a
-- status and deleted. Constraints of SQLite raise, as PRAGMA foreign_keys is on.
pub mod Pages
use kitt.Prelude.{
  ℕ, zero, suc, ◌+◌, ◌-◌, ◌*◌, ◌/◌, String, Bool, true, false, not, Option, none, some, List, [],
  ◌∷◌, ◌++◌, any, map, length, take, drop, select, eqb, if◌then◌else◌, ◌==◌, ◌||◌, ◌&&◌,
}
use kitt.Prelude.Exec.{Exec, Result, ok, raised, pure, gets, modify, ◌>>=◌, ◌>>◌}
use kitt.Web.Database.{
  WebCampaign, CampaignLine, Event, status_and_error, name_is, Db, Outside, query, publish,
  has_agent,
}

abbrev pub has_campaign : String → Db → Bool
has_campaign campaign_id s = any (λ (c : WebCampaign). c.id == campaign_id) s.campaigns

-- INSERT INTO web_campaigns, where the id is new and the agent is listed.
unfoldable pub insert_campaign : WebCampaign → Exec Db (Unit {0})
insert_campaign c s =
    if has_campaign c.id s
    then (raised "UNIQUE constraint failed", s)
    else if has_agent c.agent_id s
    then (ok tt, record s { campaigns = s.campaigns ++ c ∷ [] })
    else (raised "FOREIGN KEY constraint failed", s)

-- SELECT * FROM web_campaigns WHERE id = ?
unfoldable pub find_campaign : String → List WebCampaign → Option WebCampaign
find_campaign campaign_id [] = none
find_campaign campaign_id (c ∷ rows) =
    if c.id == campaign_id then some c else find_campaign campaign_id rows

unfoldable pub get : String → Db → Option WebCampaign
get campaign_id s = find_campaign campaign_id s.campaigns

unfoldable pub update_campaigns : String → (WebCampaign → WebCampaign) → Db → Db
update_campaigns campaign_id change s = record s {
  campaigns = map (λ (c : WebCampaign). if c.id == campaign_id then change c else c) s.campaigns;
}

-- The keyword arguments of update_status, `none` for one that is not given.
pub record Counts : Type 0 where
  pub total_runs : Option ℕ
  pub succeeded : Option ℕ
  pub failed : Option ℕ
  pub skipped : Option ℕ

abbrev pub no_counts : Counts
no_counts = record { total_runs = none; succeeded = none; failed = none; skipped = none }

abbrev given_or : Option ℕ → ℕ → ℕ
given_or none old = old
given_or (some new) old = new

unfoldable pub is_final : String → Bool
is_final status = (status == "completed") || ((status == "failed") || (status == "cancelled"))

unfoldable pub status_row : String → String → Counts → String → WebCampaign → WebCampaign
status_row status error counts now c = record c {
  status = status;
  error = if error == "" then c.error else error;
  started_at = if status == "running" then now else c.started_at;
  completed_at = if is_final status then now else c.completed_at;
  total_runs = given_or counts.total_runs c.total_runs;
  succeeded = given_or counts.succeeded c.succeeded;
  failed = given_or counts.failed c.failed;
  skipped = given_or counts.skipped c.skipped;
}

-- A page of the listing, the rows without their configuration.
pub record Listing : Type 0 where
  pub items : List WebCampaign
  pub total : ℕ
  pub page : ℕ
  pub per_page : ℕ
  pub pages : ℕ

module _ (lib : Outside) where
  unfoldable pub create : String → String → String → String → Exec Db String
  create name config description agent_id = do
    campaign_id ← query lib.uuid_hex
    now ← query lib.now
    insert_campaign (record {
      id = campaign_id;
      name = name;
      description = description;
      config = config;
      status = "draft";
      agent_id = agent_id;
      created_at = now;
      started_at = "";
      completed_at = "";
      total_runs = 0;
      succeeded = 0;
      failed = 0;
      skipped = 0;
      error = "";
    })
    publish (record {
      event_type = "campaign_created";
      source_id = campaign_id;
      payload = name_is name;
    })
    pure campaign_id

  -- ORDER BY created_at DESC
  unfoldable pub insert_newest : WebCampaign → List WebCampaign → List WebCampaign
  insert_newest c [] = c ∷ []
  insert_newest c (d ∷ rows) =
      let later = insert_newest c rows in
      if lib.text_before c.created_at d.created_at then d ∷ later else c ∷ d ∷ rows

  unfoldable pub newest_first : List WebCampaign → List WebCampaign
  newest_first [] = []
  newest_first (c ∷ rows) = insert_newest c (newest_first rows)

  unfoldable pub matching : String → Db → List WebCampaign
  matching status s =
      select (λ (c : WebCampaign). (status == "") || (c.status == status)) s.campaigns

  -- `page` counts from 1; SQLite takes a negative offset for 0.
  unfoldable pub list_campaigns : String → ℕ → ℕ → Db → Listing
  list_campaigns status page per_page s =
      let total = length (matching status s) in
      record {
        items =
            map (λ (c : WebCampaign). record c { config = "" })
              (take per_page (drop ((page - 1) * per_page) (newest_first (matching status s))));
        total = total;
        page = page;
        per_page = per_page;
        pages = if eqb per_page 0 then 0 else (total + per_page - 1) / per_page;
      }

  -- The result tells whether the campaign is listed.
  unfoldable pub update_status : String → String → String → Counts → Exec Db Bool
  update_status campaign_id status error counts = do
    now ← query lib.now
    changed ← gets (has_campaign campaign_id)
    modify (update_campaigns campaign_id (status_row status error counts now))
    publish (record {
      event_type = "status";
      source_id = campaign_id;
      payload = status_and_error status error;
    })
    pure changed

-- DELETE, where no line of a log refers to the campaign.
unfoldable pub delete : String → Exec Db Bool
delete campaign_id s =
    if not (has_campaign campaign_id s)
    then (ok false, s)
    else if any (λ (l : String × CampaignLine). l.0 == campaign_id) s.campaign_logs
    then (raised "FOREIGN KEY constraint failed", s)
    else (
      ok true,
      record s { campaigns = select (λ (c : WebCampaign). not (c.id == campaign_id)) s.campaigns },
    )

abbrev is_draft : String → WebCampaign → Bool
is_draft campaign_id c = (c.id == campaign_id) && (c.status == "draft")

-- The configuration changes only while the campaign is a draft.
unfoldable pub update_config : String → String → Exec Db Bool
update_config campaign_id config s = (
  ok (any (is_draft campaign_id) s.campaigns),
  record s {
    campaigns =
        map
          (λ (c : WebCampaign). if is_draft campaign_id c then record c { config = config } else c)
          s.campaigns;
  },
)
