-- ===== src/Audit/Rotation.antt =====
-- crates/relay/src/audit.rs: what a rotation does to the numbered backups.
use g_rpc_relay.Base.{
  ℕ, zero, suc, ◌-◌, ◌≤◌, ◌<◌, ◌≡◌, ◌≢◌, refl, sym, ◌∙◌, inl, inr, Bool, true, false, Option, none,
  some, List, [], ◌∷◌, arith, if◌then◌else◌, ltb, eqb, take, length, Bool-cases, eqb_refl, eqb→eq,
  Option-cases, ℕ_eq,
}
use g_rpc_relay.Audit.Files.{LogFile, Slots, set, rename, move_backup, move_backups}

abbrev pub get_elem? : ℕ → List LogFile → Option LogFile
get_elem? i [] = none
get_elem? zero (file ∷ files) = some file
get_elem? (suc i) (file ∷ files) = get_elem? i files

abbrev pub never : ℕ → Bool
never i = false

-- A backup after a missing one is missing.
abbrev NoGap : Slots → ℕ → Type 0
NoGap slots i = slots i ≡ none → slots (suc i) ≡ none

pub set_self : (i : ℕ) (file : Option LogFile) (slots : Slots) → set i file slots i ≡ file
set_self i file slots = rw (eqb_refl i) refl

pub set_other :
    (i j : ℕ) (file : Option LogFile) (slots : Slots) → j ≢ i → set i file slots j ≡ slots j
set_other i j file slots h = let apart : eqb j i ≡ false = ground arith in rw apart refl

-- The three places that a move of backup i is about: its own, the next one, and any other.
move_backup_self : (i : ℕ) (slots : Slots) → move_backup i false slots i ≡ none
unfolding move_backup rename
move_backup_self i slots = elim (Option-cases (slots i)) [
  | inl gone ↦ rw (gone, move_backup) gone
  | inr (file, there) ↦
      rw (there, move_backup)
        (set_other (suc i) i (slots i) (set i none slots) (omega arith) ∙ set_self i none slots)
]

move_backup_next :
    (i : ℕ) (slots : Slots) → NoGap slots i → move_backup i false slots (suc i) ≡ slots i
unfolding move_backup rename
move_backup_next i slots v = elim (Option-cases (slots i)) [
  | inl gone ↦ rw (gone, move_backup) (v gone)
  | inr (file, there) ↦
      rw (there, move_backup) (set_self (suc i) (slots i) (set i none slots) ∙ there)
]

move_backup_other :
    (i j : ℕ) (slots : Slots) → j ≢ i → j ≢ suc i → move_backup i false slots j ≡ slots j
unfolding move_backup rename
move_backup_other i j slots apart next = elim (Option-cases (slots i)) [
  | inl gone ↦ rw (gone, move_backup) refl
  | inr (file, there) ↦
      rw (there, move_backup)
        (set_other (suc i) j (slots i) (set i none slots) (omega (arith, next))
          ∙ set_other i j none slots apart)
]

move_backup-NoGap :
    (k i : ℕ) (slots : Slots) → i ≤ k → NoGap slots i → NoGap (move_backup (suc k) false slots) i
move_backup-NoGap k i slots h v gone = elim (Bool-cases (eqb i k)) [
  | inl last ↦ rw (eqb→eq i k last) (move_backup_self (suc k) slots)
  | inr before ↦
      move_backup_other (suc k) (suc i) slots (ground arith) (omega arith)
      ∙ v (sym (move_backup_other (suc k) i slots (omega arith) (omega arith)) ∙ gone)
]

-- There is no gap up to backup k.
abbrev pub NoGaps : Slots → ℕ → Type 0
NoGaps slots k = (i : ℕ) → i ≤ k → NoGap slots i

next-NoGaps :
    (k : ℕ) (slots : Slots) → NoGaps slots (suc k) → NoGaps (move_backup (suc k) false slots) k
next-NoGaps k slots v i h = move_backup-NoGap k i slots h (v i (omega arith))

pub above : (k : ℕ) (slots : Slots) (j : ℕ) → suc k < j → move_backups k never slots j ≡ slots j
unfolding move_backups
above zero slots j h = refl
above (suc k) slots j h =
    above k (move_backup (suc k) false slots) j (omega arith)
    ∙ move_backup_other (suc k) j slots (omega arith) (omega arith)

pub lowest : (k : ℕ) (slots : Slots) → 0 < k → move_backups k never slots 1 ≡ none
unfolding move_backups
lowest zero slots h = absurd (omega arith)
lowest (suc zero) slots h = move_backup_self 1 slots
lowest (suc (suc k)) slots h = lowest (suc k) (move_backup (suc (suc k)) false slots) (omega arith)

pub unmoved : (k : ℕ) (slots : Slots) → move_backups k never slots 0 ≡ slots 0
unfolding move_backups
unmoved zero slots = refl
unmoved (suc k) slots =
    unmoved k (move_backup (suc k) false slots)
    ∙ move_backup_other (suc k) 0 slots (omega arith) (omega arith)

pub moved :
    (k : ℕ) (slots : Slots) (j : ℕ)
    → NoGaps slots k
    → 0 < j
    → j ≤ k
    → move_backups k never slots (suc j) ≡ slots j
unfolding move_backups
moved zero slots j v l h = absurd (omega arith)
moved (suc k) slots j v l h =
    let next = move_backup (suc k) false slots in
    elim (Bool-cases (eqb j (suc k))) [
      | inl last ↦
          above k next (suc j) (omega (arith, eqb→eq j (suc k) last))
          ∙ rw (eqb→eq j (suc k) last) (move_backup_next (suc k) slots (v (suc k) (omega arith)))
      | inr before ↦
          moved k next j (next-NoGaps k slots v) l (ground arith)
          ∙ move_backup_other (suc k) j slots (ground arith) (omega arith)
    ]

-- The backups are these files, the newest first.
abbrev pub Holds : Slots → List LogFile → Type 0
Holds slots backups = (j : ℕ) → slots (suc j) ≡ get_elem? j backups

get_elem?-NoGap :
    (j : ℕ) (files : List LogFile) → get_elem? j files ≡ none → get_elem? (suc j) files ≡ none
get_elem?-NoGap j [] h = refl
get_elem?-NoGap zero (file ∷ files) h = cc
get_elem?-NoGap (suc j) (file ∷ files) h = get_elem?-NoGap j files h

pub Holds-NoGaps :
    (k : ℕ) (slots : Slots) (active : LogFile) (backups : List LogFile)
    → slots 0 ≡ some active
    → Holds slots backups
    → NoGaps slots k
Holds-NoGaps k slots active backups first v zero h gone = cc
Holds-NoGaps k slots active backups first v (suc j) h gone =
    v (suc j) ∙ get_elem?-NoGap j backups (sym (v j) ∙ gone)

pub get_elem?-take :
    (n j : ℕ) (files : List LogFile)
    → get_elem? j (take n files) ≡ (if ltb j n then get_elem? j files else none)
get_elem?-take n j [] = ground arith
get_elem?-take zero j (file ∷ files) = ground arith
get_elem?-take (suc n) zero (file ∷ files) = ground arith
get_elem?-take (suc n) (suc j) (file ∷ files) =
    let rest = get_elem?-take n j files in ground (arith, rest)

pub get_elem?_past : (j : ℕ) (files : List LogFile) → length files ≤ j → get_elem? j files ≡ none
get_elem?_past j [] h = refl
get_elem?_past zero (file ∷ files) h = absurd (omega arith)
get_elem?_past (suc j) (file ∷ files) h = get_elem?_past j files (omega arith)

renamed-get :
    (j : ℕ) (file : Option LogFile) (slots : Slots)
    → 1 < j
    → set 0 file (rename 0 1 slots) j ≡ slots j
unfolding rename
renamed-get j file slots h =
    set_other 0 j file (rename 0 1 slots) (omega arith)
    ∙ set_other 1 j (slots 0) (set 0 none slots) (omega arith)
    ∙ set_other 0 j none slots (omega arith)

-- Backups moved up and the active file before them: the oldest one that has no place is gone.
pub rotated-Holds :
    (n : ℕ) (slots : Slots) (active : LogFile) (backups : List LogFile) (fresh : LogFile)
    → 0 < n
    → slots 0 ≡ some active
    → Holds slots backups
    → length backups ≤ n
    → Holds
        (set 0 (some fresh) (rename 0 1 (move_backups (n - 1) never slots)))
        (take n (active ∷ backups))
unfolding rename
rotated-Holds n slots active backups fresh p first v small zero =
    let kept = get_elem?-take n 0 (active ∷ backups) in
    let here : ltb 0 n ≡ true = ground arith in
    unmoved (n - 1) slots ∙ first ∙ sym (rw here at kept)
rotated-Holds n slots active backups fresh p first v small (suc j) =
    let kept = get_elem?-take n (suc j) (active ∷ backups) in
    let up =
      renamed-get (suc (suc j)) (some fresh) (move_backups (n - 1) never slots) (omega arith) in
    elim (Bool-cases (ltb (suc j) n)) [
      | inl fits ↦
          up
          ∙ moved (n - 1) slots (suc j) (Holds-NoGaps (n - 1) slots active backups first v)
              (omega arith) (ground arith)
          ∙ v j
          ∙ sym (rw fits at kept)
      | inr over ↦
          up
          ∙ above (n - 1) slots (suc (suc j)) (ground arith)
          ∙ v (suc j)
          ∙ get_elem?_past (suc j) backups (ground arith)
          ∙ sym (rw over at kept)
    ]
