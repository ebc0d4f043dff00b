-- ===== src/Audit/Failure.antt =====
-- crates/relay/src/audit.rs, `rotate`: the active file cannot be renamed.
use g_rpc_relay.Base.{
  ℕ, zero, suc, ◌-◌, ◌<◌, ◌≡◌, refl, ap, sym, ◌∙◌, inl, inr, Bool, true, false, none, some, err,
  arith, ltb, take, Bool-cases, ℕ_eq,
}
use g_rpc_relay.Audit.Files.{Slots, FileAuditWriter, move_backups, move_backup, rotate}
use g_rpc_relay.Audit.Rotation.{
  get_elem?, never, Holds-NoGaps, moved, above, lowest, unmoved, get_elem?-take, get_elem?_past,
}
use g_rpc_relay.Audit.Archive.{Archive, Represents}

shifted :
    (w : FileAuditWriter) (a : Archive)
    → Represents w a
    → 1 < w.max_backups
    → (j : ℕ)
    → move_backups (w.max_backups - 1) never w.slots (suc (suc j))
      ≡ get_elem? j (take (w.max_backups - 1) a.backups)
shifted w a v few_backups j =
    let k = w.max_backups - 1 in
    let kept = get_elem?-take k j a.backups in
    let few = v.few in
    elim (Bool-cases (ltb j k)) [
      | inl fits ↦
          moved k w.slots (suc j) (Holds-NoGaps k w.slots a.active a.backups v.active v.held)
            (omega arith) (ground arith)
          ∙ v.held j
          ∙ sym (rw fits at kept)
      | inr over ↦
          above k w.slots (suc (suc j)) (ground arith)
          ∙ v.held (suc j)
          ∙ get_elem?_past (suc j) a.backups (ground arith)
          ∙ sym (rw over at kept)
    ]

module _ (fails : ℕ → Bool) (backups_move : (i : ℕ) → fails (suc i) ≡ false) where
  move_backups-never :
      (k : ℕ) (slots : Slots) → move_backups k fails slots ≡ move_backups k never slots
  unfolding move_backups
  move_backups-never zero slots = refl
  move_backups-never (suc k) slots =
      rw (backups_move k) (move_backups-never k (move_backup (suc k) false slots))

  -- When the files on the disk are those of an archive, more than one backup is kept, every backup
  -- can be renamed and the active file cannot, a rotation returns an error and leaves the active
  -- file and the count of its bytes; but the backups have moved up by one, with none in the first
  -- place, and where there were as many backups as are kept the oldest is lost.
  pub rotate_fails :
      (now : ℕ) (w : FileAuditWriter) (a : Archive)
      → Represents w a
      → 1 < w.max_backups
      → fails 0 ≡ true
      → ((rotate fails now w).0 ≡ err tt)
        × ((rotate fails now w).1.bytes_written ≡ w.bytes_written)
        × ((rotate fails now w).1.slots 0 ≡ some a.active)
        × ((rotate fails now w).1.slots 1 ≡ none)
        × ((j : ℕ)
            → (rotate fails now w).1.slots (suc (suc j))
              ≡ get_elem? j (take (w.max_backups - 1) a.backups))
  unfolding rotate
  rotate_fails now w a v few_backups stuck =
      let k = w.max_backups - 1 in
      rw (stuck, rotate)
        (
          refl,
          refl,
          ap (λ (s : Slots). s 0) (move_backups-never k w.slots) ∙ unmoved k w.slots ∙ v.active,
          ap (λ (s : Slots). s 1) (move_backups-never k w.slots) ∙ lowest k w.slots (omega arith),
          λ j.
              ap (λ (s : Slots). s (suc (suc j))) (move_backups-never k w.slots)
              ∙ shifted w a v few_backups j,
        )
