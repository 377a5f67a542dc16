-- ===== src/Campaign/Scheduler/Disk.antt =====
-- The check of the disk space asks one question and changes nothing.
use kitt.Prelude.Exec.Rules.{Preserves, Returns}
use kitt.Campaign.Config.{DiskConfig, CampaignRunSpec}
use kitt.Campaign.Session.{World}
use kitt.Campaign.Session.Rules.{view, view_rules, session_returns}
use kitt.Campaign.Scheduler.{check_disk_space}

module _ (w : World) (disk : DiskConfig) (run : CampaignRunSpec) where
  pub check_disk_space-view : Preserves view (check_disk_space w disk run)
  unfolding check_disk_space
  check_disk_space-view = search view_rules

  pub check_disk_space-Returns : Returns (check_disk_space w disk run)
  unfolding check_disk_space
  check_disk_space-Returns = search session_returns
