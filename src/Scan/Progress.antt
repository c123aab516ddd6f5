-- ===== src/Scan/Progress.antt =====
-- progressReporter (internal/scan/scan.go), which writes the counters of a running scan to its row every
-- second.
use ditto.Prelude.{
  ℕ, ◌≡◌, refl, List, [], ◌∷◌, Bool, true, arith, if◌then◌else◌, nat_beq, ap, ◌∙◌, Bool-cases, inl,
  inr,
}
use ditto.Scan.Types.{Progress}
use ditto.Tables.{DuplicateGroup}
use ditto.Scan.Records.{
  ScanRow, ScanStatus, History, ExecFaults, update_row, finalised, finalise_scan_record,
  group_totals,
}

-- The columns of a flush.
abbrev pub reported : Progress → ScanRow → ScanRow
reported p r = record r {
  files_discovered = p.files_discovered;
  progress_candidates_found = p.candidates_found;
  progress_partial_hashed = p.partial_hashed;
  progress_full_hashed = p.full_hashed;
  progress_bytes_read = p.bytes_read;
  cache_hits = p.cache_hits;
  cache_misses = p.cache_misses;
  errors = p.errors;
  progress_groups_written = p.groups_written;
  progress_groups_total = p.groups_total;
  phase2_started_at = p.phase2_started_at;
  disk_read_ms = p.disk_read_ms;
  db_read_ms = p.db_read_ms;
  db_write_ms = p.db_write_ms;
}

-- flush, unless the database refuses it, which is only logged.
unfoldable pub flush : Bool → ℕ → Progress → History → History
flush refused k p h = if refused then h else record h { rows = update_row k (reported p) h.rows }

-- What the loop selects, with the counters as they are then and whether the database refuses the flush.
pub data Wake : Type 0 where
  tick : Bool → Progress → Wake
  stop : Bool → Progress → Wake
  done : Wake

unfoldable pub progress_reporter : ℕ → History → List Wake → History
progress_reporter k h [] = h
progress_reporter k h (tick refused p ∷ ws) = progress_reporter k (flush refused k p h) ws
progress_reporter k h (stop refused p ∷ ws) = flush refused k p h
progress_reporter k h (done ∷ ws) = h

update_row_comm :
    (k : ℕ) (f g : ScanRow → ScanRow) (rs : List ScanRow)
    → ((r : ScanRow) → ((f r).id ≡ r.id) × ((g r).id ≡ r.id) × (g (f r) ≡ f (g r)))
    → update_row k g (update_row k f rs) ≡ update_row k f (update_row k g rs)
update_row_comm k f g [] same = refl
update_row_comm k f g (r ∷ rs) same =
    let (f_id, g_id, swap) = same r in
    let rest = update_row_comm k f g rs same in
    elim (Bool-cases (nat_beq r.id k)) [
      | inl here ↦
          let at_f : nat_beq (f r).id k ≡ true = ap (λ j. nat_beq j k) f_id ∙ here in
          let at_g : nat_beq (g r).id k ≡ true = ap (λ j. nat_beq j k) g_id ∙ here in
          rw here (rw (at_f, at_g) (rw (swap, rest) refl))
      | inr away ↦ rw away (rw away (rw rest refl))
    ]

-- The last flush of the reporter and finaliseScanRecord, which run beside each other at the end of a
-- scan, on the same counters: whichever comes first, and whatever the database refuses, the tables
-- are the same.
pub finalise_scan_record-progress_reporter :
    (χ : ExecFaults) (h : History) (k finished duration : ℕ) (status : ScanStatus) (p : Progress)
    (groups : List DuplicateGroup) (refused : Bool) (ws : List Wake)
    → finalise_scan_record χ
        (progress_reporter k h (stop refused p ∷ ws))
        k
        status
        finished
        duration
        p
        groups
      ≡ progress_reporter k
          (finalise_scan_record χ h k status finished duration p groups)
          (stop refused p ∷ ws)
unfolding finalise_scan_record progress_reporter flush
finalise_scan_record-progress_reporter χ h k finished duration status p groups refused ws =
    let totals = group_totals χ.count_groups k groups in
    let comm =
      update_row_comm k (reported p) (finalised status finished duration p totals) h.rows
        (λ r. (refl, refl, refl)) in
    ground (arith, comm)
