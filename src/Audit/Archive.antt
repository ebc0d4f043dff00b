-- ===== src/Audit/Archive.antt =====
-- crates/relay/src/audit.rs, `FileAuditWriter`, against what it is for: a file that grows to a size
-- and a bounded list of older ones.
use g_rpc_relay.Base.{
  ℕ, zero, suc, ◌+◌, ◌-◌, ◌*◌, ◌%◌, ◌≤◌, ◌<◌, ◌≡◌, refl, ap, sym, ◌∙◌, inl, inr, false, Option,
  some, List, [], ◌∷◌, ◌++◌, ok, arith, if◌then◌else◌, ltb, leb, eqb, take, length, Bool-cases,
  ℕ_eq,
}
use g_rpc_relay.Text.{Str, len}
use g_rpc_relay.Audit.Files.{
  LogFile, FileAuditWriter, day, u64_mod, size, lines_of, set, append, rename, move_backups,
  cleanup_from, cleanup_old_backups, rotate, write_event,
}
use g_rpc_relay.Audit.Rotation.{set_other, Holds, rotated-Holds}
use g_rpc_relay.Audit.Expiry.{recent, Falling, cleanup_from-recent, cleanup_from_before}

-- The file that is written and the older ones, the newest first.
pub record Archive : Type 0 where
  pub active : LogFile
  pub backups : List LogFile

abbrev pub empty_at : ℕ → LogFile
empty_at now = record { lines = []; modified = now }

abbrev pub with_line : Str → ℕ → LogFile → LogFile
with_line line now file = record { lines = file.lines ++ line ∷ []; modified = now }

-- With a retention of zero days no file is too old.
abbrev pub expire : (retention_days now : ℕ) → List LogFile → List LogFile
expire retention_days now files =
    if eqb retention_days 0 then files else recent (now - retention_days * day) files

-- A file that has reached the size becomes the newest backup; the oldest ones go.
pub store : (max_size max_backups retention_days : ℕ) → (line : Str) → (now : ℕ) → Archive → Archive
store max_size max_backups retention_days line now a =
    let written = with_line line now a.active in
    if leb max_size (size written.lines)
    then record {
      active = empty_at now;
      backups = expire retention_days now (take max_backups (written ∷ a.backups));
    }
    else record { active = written; backups = a.backups }

-- The writer's files and its count are those of the archive.
pub record Represents (w : FileAuditWriter) (a : Archive) : Type 0 where
  pub active : w.slots 0 ≡ some a.active
  pub held : Holds w.slots a.backups
  pub few : length a.backups ≤ w.max_backups
  pub falling : Falling a.active.modified a.backups
  pub counted : w.bytes_written ≡ size a.active.lines

size-append :
    (lines : List Str) (line : Str) → size (lines ++ line ∷ []) ≡ size lines + len line + 1
size-append [] line = omega arith
size-append (l ∷ lines) line = let rest = size-append lines line in omega (arith, rest)

length-take-le : (n : ℕ) (files : List LogFile) → length (take n files) ≤ n
length-take-le n [] = omega arith
length-take-le zero (file ∷ files) = omega arith
length-take-le (suc n) (file ∷ files) = let rest = length-take-le n files in omega (arith, rest)

length-recent-le : (cutoff : ℕ) (files : List LogFile) → length (recent cutoff files) ≤ length files
length-recent-le cutoff [] = omega arith
length-recent-le cutoff (file ∷ files) =
    let rest = length-recent-le cutoff files in ground (arith, rest)

Falling-later :
    (time now : ℕ) (files : List LogFile) → time ≤ now → Falling time files → Falling now files
Falling-later time now [] h v = tt
Falling-later time now (file ∷ files) h v = (omega arith, v.1)

Falling-take :
    (time n : ℕ) (files : List LogFile) → Falling time files → Falling time (take n files)
Falling-take time n [] v = tt
Falling-take time zero (file ∷ files) v = tt
Falling-take time (suc n) (file ∷ files) v = (v.0, Falling-take file.modified n files v.1)

Falling-recent :
    (cutoff time : ℕ) (files : List LogFile)
    → Falling time files
    → Falling time (recent cutoff files)
Falling-recent cutoff time [] v = tt
Falling-recent cutoff time (file ∷ files) v = elim (Bool-cases (ltb file.modified cutoff)) [
  | inl old ↦
      rw old (Falling-recent cutoff time files (Falling-later file.modified time files v.0 v.1))
  | inr fresh ↦ rw fresh (v.0, Falling-recent cutoff file.modified files v.1)
]

one_plus : (j : ℕ) → 1 + j ≡ suc j
one_plus j = omega arith

cleanup_old_backups-Represents :
    (now : ℕ) (w : FileAuditWriter) (a : Archive)
    → Represents w a
    → Represents
        (cleanup_old_backups now w)
        (record a { backups = expire w.retention_days now a.backups })
unfolding cleanup_old_backups
cleanup_old_backups-Represents now w a v = elim (Bool-cases (eqb w.retention_days 0)) [
  | inl ever ↦ rw (ever, cleanup_old_backups) v
  | inr some_days ↦
      let cutoff = now - w.retention_days * day in
      let kept = length-recent-le cutoff a.backups in
      let bound = v.few in
      let cleaned =
        cleanup_from-recent cutoff w.max_backups 1 a.active.modified w.slots a.backups
          (λ j. ap w.slots (one_plus j) ∙ v.held j) v.falling v.few in
      rw (some_days, cleanup_old_backups)
        (record {
          active = cleanup_from_before cutoff w.max_backups 1 0 w.slots (omega arith) ∙ v.active;
          held =
              λ j. ap (cleanup_from cutoff w.max_backups 1 w.slots) (sym (one_plus j)) ∙ cleaned j;
          few = omega (arith, kept, bound);
          falling = Falling-recent cutoff a.active.modified a.backups v.falling;
          counted = v.counted;
        })
]

-- The archive once its active file has become a backup.
abbrev turned_over : (max_backups now : ℕ) → Archive → Archive
turned_over max_backups now a = record {
  active = empty_at now;
  backups = take max_backups (a.active ∷ a.backups);
}

rotate-Represents :
    (now : ℕ) (w : FileAuditWriter) (a : Archive)
    → Represents w a
    → 0 < w.max_backups
    → a.active.modified ≤ now
    → ((rotate (λ i. false) now w).0 ≡ ok tt)
      × Represents (rotate (λ i. false) now w).1 (record (turned_over w.max_backups now a) {
        backups = expire w.retention_days now (take w.max_backups (a.active ∷ a.backups));
      })
unfolding rotate
rotate-Represents now w a v some_backup h = (
  refl,
  cleanup_old_backups-Represents now
      (record w {
        slots =
            set 0 (some (empty_at now))
              (rename 0 1 (move_backups (w.max_backups - 1) (λ i. false) w.slots));
        bytes_written = 0;
      })
      (turned_over w.max_backups now a)
      (record {
        active = refl;
        held =
            rotated-Holds w.max_backups w.slots a.active a.backups (empty_at now) some_backup
              v.active v.held v.few;
        few = length-take-le w.max_backups (a.active ∷ a.backups);
        falling = Falling-take now w.max_backups (a.active ∷ a.backups) (h, v.falling);
        counted = refl;
      }),
)

append-Represents :
    (line : Str) (now : ℕ) (w : FileAuditWriter) (a : Archive)
    → Represents w a
    → a.active.modified ≤ now
    → Represents
        (record w {
          slots = append line now w.slots;
          bytes_written = size (with_line line now a.active).lines;
        })
        (record a { active = with_line line now a.active })
unfolding append
append-Represents line now w a v h = record {
  active =
      ap (λ (f : Option LogFile). some (record { lines = lines_of f ++ line ∷ []; modified = now }))
        v.active;
  held = λ j. set_other 0 (suc j) (append line now w.slots 0) w.slots (omega arith) ∙ v.held j;
  few = v.few;
  falling = Falling-later a.active.modified now a.backups h v.falling;
  counted = refl;
}

-- Without I/O errors, with at least one backup, and as long as its file stays below 2^64 bytes, the
-- writer keeps what the archive keeps: after an event that both are given, the numbered files on
-- disk and the count of bytes are again those of the archive, in which the line ends the active
-- file, or a file that has reached the maximal size, which then is the newest backup before an empty
-- file, while the oldest backups and those past their retention are gone.
pub write_event-Represents :
    (line : Str) (now : ℕ) (w : FileAuditWriter) (a : Archive)
    → Represents w a
    → 0 < w.max_backups
    → a.active.modified ≤ now
    → size (a.active.lines ++ line ∷ []) < u64_mod
    → ((write_event (λ i. false) line now w).0 ≡ ok tt)
      × Represents
          (write_event (λ i. false) line now w).1
          (store w.max_size w.max_backups w.retention_days line now a)
unfolding write_event store
write_event-Represents line now w a v some_backup h small =
    let total : (w.bytes_written + len line + 1) % u64_mod ≡ size (a.active.lines ++ line ∷ []) =
      let grown = size-append a.active.lines line in
      let counted = v.counted in omega (arith, grown, counted) in
    let written = append-Represents line now w a v h in
    let w1 : FileAuditWriter = record w {
      slots = append line now w.slots;
      bytes_written = size (a.active.lines ++ line ∷ []);
    } in
    elim (Bool-cases (leb w.max_size (size (a.active.lines ++ line ∷ [])))) [
      | inl full ↦
          rw (total, full, write_event, store)
            (rotate-Represents now w1 (record a { active = with_line line now a.active }) written
              some_backup (omega arith))
      | inr room ↦ rw (total, room, write_event, store) (refl, written)
    ]
