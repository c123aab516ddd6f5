-- ===== src/Status/Latest.antt =====
-- The status (internal/api/handlers/status.go) against ScansHandler's Get (internal/api/handlers/scans.go).
use ditto.Prelude.{
  ℕ, ◌≡◌, refl, List, [], ◌∷◌, Option, some, Bool, true, false, String, AllDifferent, Member,
  Member-perm, Member-keep, arith, inl, inr, ap, ◌∙◌, sym, Option-cases,
}
use mathlib.Core.List.{Permᴰ}
use ditto.Scan.Types.{Progress}
use ditto.Scan.Records.{
  ScanRow, ScanStatus, running, completed, failed, cancelled, is_completed, find_row,
}
use ditto.Scan.Manager.{Manager}
use ditto.Scan.Handlers.{Floats, ScanItem, ScanError, ErrorItem, detail, item_of, get_scan}
use ditto.Scan.Answers.{row_ids, find_row_lem, get_scan-found, listed_errors}
use ditto.Scheduler.{Cron, Scheduler}
use ditto.Status.{
  CompletedScanInfo, completed_rows, first_completed, last_completed_scan, serve_status,
}

is_completed-eq : (s : ScanStatus) → is_completed s ≡ true → s ≡ completed
is_completed-eq running h = absurd (ground arith)
is_completed-eq completed h = refl
is_completed-eq failed h = absurd (ground arith)
is_completed-eq cancelled h = absurd (ground arith)

module _ (F : Floats) (rfc3339 : ℕ → String) where
  -- What the status tells of a scan is what Get tells of it.
  abbrev pub Agrees : CompletedScanInfo F.Float → ScanItem F.Float → Type 0
  Agrees c it =
      (it.id ≡ c.id)
      × (it.status ≡ completed)
      × (it.finished_at ≡ some c.finished_at)
      × (it.duplicate_groups ≡ c.duplicate_groups)
      × (it.duplicate_files ≡ c.duplicate_files)
      × (it.reclaimable_bytes ≡ c.reclaimable_bytes)
      × (it.cache_hit_rate ≡ c.cache_hit_rate)

  first_completed-row :
      (rs : List ScanRow) (c : CompletedScanInfo F.Float)
      → first_completed rfc3339 F rs ≡ some c
      → (r : ScanRow) × Member r rs
        × (r.id ≡ c.id)
        × (r.status ≡ completed → Agrees c (item_of F rfc3339 r))
  unfolding item_of
  first_completed-row [] c h = absurd (ground arith)
  first_completed-row (r ∷ rs) c h = elim (Option-cases r.finished_at) [
    | inl e ↦ absurd (ground arith)
    | inr (t, e) ↦ (
      r,
      inl refl,
      ground arith,
      λ s. (ground arith, s, ground arith, ground arith, ground arith, ground arith, ground arith),
    )
  ]

  -- If the ids of the rows differ and the query orders the rows that it selects, the last completed scan
  -- of the status is one at whose id Get, unless its query is refused, answers with a completed scan of
  -- the same end, counts and hit rate.
  pub serve_status-get_scan :
      (latest : List ScanRow → List ScanRow) (version : String) (p : Progress) (m : Option Manager)
      (cron : Cron) (s : Option (Scheduler cron)) (rows : List ScanRow)
      (c : CompletedScanInfo F.Float) (parse_int : String → Option ℕ)
      (by_time : List ScanError → List ScanError) (unlisted : Bool) (errors : List ScanError)
      (id : String)
      → AllDifferent (row_ids rows)
      → Permᴰ (latest (completed_rows rows)) (completed_rows rows)
      → (serve_status rfc3339 F latest version p m cron s false rows).last_completed_scan ≡ some c
      → parse_int id ≡ some c.id
      → (it : ScanItem F.Float) × (es : List ErrorItem) × (get_scan F rfc3339 parse_int false rows
            by_time unlisted errors id
          ≡ detail it es)
        × Agrees c it
  unfolding serve_status last_completed_scan
  serve_status-get_scan latest version p m cron s rows c parse_int by_time unlisted errors id differ
        ordered told parsed =
      let (r, there, same_id, agrees) = first_completed-row (latest (completed_rows rows)) c told in
      let (row, done) =
        Member-keep r (λ (x : ScanRow). is_completed x.status) rows (Member-perm r ordered there) in
      let found : find_row c.id rows ≡ some r =
        ap (λ j. find_row j rows) (sym same_id) ∙ find_row_lem r rows differ row in
      (
        item_of F rfc3339 r,
        listed_errors F rfc3339 by_time unlisted errors c.id,
        get_scan-found F rfc3339 parse_int rows by_time unlisted errors id c.id r parsed found,
        agrees (is_completed-eq r.status done),
      )
