-- ===== src/Audit/Files.antt =====
-- crates/relay/src/audit.rs, `FileAuditWriter`: the active file and its numbered backups. Slot 0 is
-- the file itself, slot i its backup `log.i`. Opening, writing and removing a file do not fail, and
-- a rename fails where an argument says so.
use g_rpc_relay.Base.{
  ℕ, zero, suc, ◌+◌, ◌-◌, ◌*◌, ◌%◌, ◌^◌, Bool, Option, none, some, List, [], ◌∷◌, ◌++◌, Result, ok,
  err, if◌then◌else◌, ltb, leb, eqb, ℕ_eq,
}
use g_rpc_relay.Text.{Str, len}

-- Times are nanoseconds.
pub record LogFile : Type 0 where
  pub lines : List Str
  pub modified : ℕ

abbrev pub Slots : Type 0
Slots = ℕ → Option LogFile

abbrev pub day : ℕ
day = 24 * 3600 * 1_000_000_000

abbrev pub u64_mod : ℕ
u64_mod = 2 ^ 64

abbrev pub set : ℕ → Option LogFile → Slots → Slots
set i file slots = λ j. if eqb j i then file else slots j

pub record FileAuditWriter : Type 0 where
  pub slots : Slots
  pub max_size : ℕ
  pub max_backups : ℕ
  pub retention_days : ℕ
  pub bytes_written : ℕ

-- `fs::rename`: the file at `new` is replaced.
unfoldable pub rename : (old new : ℕ) → Slots → Slots
rename old new slots = set new (slots old) (set old none slots)

abbrev pub size : List Str → ℕ
size [] = 0
size (line ∷ lines) = len line + 1 + size lines

unfoldable pub remove_old : (cutoff i : ℕ) → LogFile → Slots → Slots
remove_old cutoff i file slots = if ltb file.modified cutoff then set i none slots else slots

-- The loop stops at the first backup that is missing.
unfoldable pub cleanup_from : (cutoff left i : ℕ) → Slots → Slots
cleanup_from cutoff zero i slots = slots
cleanup_from cutoff (suc left) i slots = elim (slots i) [
  | none ↦ slots
  | some file ↦ cleanup_from cutoff left (i + 1) (remove_old cutoff i file slots)
]

unfoldable pub cleanup_old_backups : (now : ℕ) → FileAuditWriter → FileAuditWriter
cleanup_old_backups now w =
    if eqb w.retention_days 0
    then w
    else record w { slots = cleanup_from (now - w.retention_days * day) w.max_backups 1 w.slots }

-- `old.exists()`, then the rename.
unfoldable pub move_backup : (i : ℕ) → (fails : Bool) → Slots → Slots
move_backup i fails slots = elim (slots i) [
  | none ↦ slots
  | some file ↦ if fails then slots else rename i (suc i) slots
]

-- The loop over `(1..max_backups).rev()`, from `i` down to 1.
unfoldable pub move_backups : (i : ℕ) → (fails : ℕ → Bool) → Slots → Slots
move_backups zero fails slots = slots
move_backups (suc i) fails slots = move_backups i fails (move_backup (suc i) (fails (suc i)) slots)

-- `fails i` tells whether the rename of slot i fails.
unfoldable pub rotate :
    (fails : ℕ → Bool)
    → (now : ℕ) → FileAuditWriter
    → Result (Unit {0}) (Unit {0}) × FileAuditWriter
rotate fails now w =
    let moved = move_backups (w.max_backups - 1) fails w.slots in
    let fresh : LogFile = record { lines = []; modified = now } in
    if fails 0 then (err tt, record w { slots = moved }) else (
      ok tt,
      cleanup_old_backups now
          (record w { slots = set 0 (some fresh) (rename 0 1 moved); bytes_written = 0 }),
    )

abbrev pub lines_of : Option LogFile → List Str
lines_of none = []
lines_of (some file) = file.lines

-- The line goes to the active file.
unfoldable pub append : (line : Str) → (now : ℕ) → Slots → Slots
append line now slots =
    set 0 (some (record { lines = lines_of (slots 0) ++ line ∷ []; modified = now })) slots

unfoldable pub write_event :
    (fails : ℕ → Bool)
    → (line : Str) → (now : ℕ) → FileAuditWriter
    → Result (Unit {0}) (Unit {0}) × FileAuditWriter
write_event fails line now w =
    let new_total = (w.bytes_written + len line + 1) % u64_mod in
    let written = record w { slots = append line now w.slots; bytes_written = new_total } in
    if leb w.max_size new_total then rotate fails now written else (ok tt, written)

-- The file that is there is kept, and its size counted.
unfoldable pub new : (max_size_mb max_backups retention_days now : ℕ) → Slots → FileAuditWriter
new max_size_mb max_backups retention_days now slots =
    let opened : Slots = elim (slots 0) [
      | some file ↦ slots
      | none ↦ set 0 (some (record { lines = []; modified = now })) slots
    ] in
    cleanup_old_backups now (record {
      slots = opened;
      max_size = max_size_mb * 1024 * 1024 % u64_mod;
      max_backups = max_backups;
      retention_days = retention_days;
      bytes_written = size (lines_of (opened 0));
    })
