-- ===== src/Audit/Expiry.antt =====
-- crates/relay/src/audit.rs: the removal of backups that are too old.
use g_rpc_relay.Base.{
  ℕ, zero, suc, ◌+◌, ◌≤◌, ◌<◌, ◌≡◌, ◌≢◌, refl, ap, ◌∙◌, inl, inr, true, none, some, List, [], ◌∷◌,
  arith, if◌then◌else◌, ltb, length, Bool-cases, Option-cases, ℕ_eq,
}
use g_rpc_relay.Audit.Files.{LogFile, Slots, remove_old, cleanup_from}
use g_rpc_relay.Audit.Rotation.{get_elem?, set_self, set_other}

-- What a clean-up does: the backups that it looks at, from the i-th on, are the files of a list, the
-- newest first.
abbrev HoldsFrom : ℕ → Slots → List LogFile → Type 0
HoldsFrom i slots files = (j : ℕ) → slots (i + j) ≡ get_elem? j files

-- The files that were modified at the cutoff or later.
abbrev pub recent : ℕ → List LogFile → List LogFile
recent cutoff [] = []
recent cutoff (file ∷ files) =
    let rest = recent cutoff files in if ltb file.modified cutoff then rest else file ∷ rest

-- None of the files is newer than this time, nor than one before it.
abbrev pub Falling : ℕ → List LogFile → Type 0
Falling time [] = Unit {0}
Falling time (file ∷ files) = (file.modified ≤ time) × Falling file.modified files

recent_old :
    (cutoff time : ℕ) (files : List LogFile)
    → time < cutoff
    → Falling time files
    → recent cutoff files ≡ []
recent_old cutoff time [] h v = refl
recent_old cutoff time (file ∷ files) h v =
    let rest = recent_old cutoff file.modified files (omega arith) v.1 in
    let old : ltb file.modified cutoff ≡ true = ground arith in rw (old, rest) refl

remove_old_other :
    (cutoff i j : ℕ) (file : LogFile) (slots : Slots)
    → j ≢ i
    → remove_old cutoff i file slots j ≡ slots j
unfolding remove_old
remove_old_other cutoff i j file slots h =
    let other = set_other i j none slots h in ground (arith, other)

pub cleanup_from_before :
    (cutoff left i j : ℕ) (slots : Slots) → j < i → cleanup_from cutoff left i slots j ≡ slots j
unfolding cleanup_from
cleanup_from_before cutoff zero i j slots h = refl
cleanup_from_before cutoff (suc left) i j slots h = elim (Option-cases (slots i)) [
  | inl gone ↦ rw (gone, cleanup_from) refl
  | inr (file, there) ↦
      rw (there, cleanup_from)
        (cleanup_from_before cutoff left (i + 1) j (remove_old cutoff i file slots) (omega arith)
          ∙ remove_old_other cutoff i j file slots (omega arith))
]

remove_old_rest :
    (cutoff i : ℕ) (file : LogFile) (slots : Slots) (files : List LogFile)
    → HoldsFrom i slots (file ∷ files)
    → HoldsFrom (i + 1) (remove_old cutoff i file slots) files
remove_old_rest cutoff i file slots files v j =
    let same : i + 1 + j ≡ i + suc j = omega arith in
    remove_old_other cutoff i (i + 1 + j) file slots (omega arith) ∙ ap slots same ∙ v (suc j)

HoldsFrom-cons :
    (i : ℕ) (slots : Slots) (file : LogFile) (files : List LogFile)
    → slots i ≡ some file
    → HoldsFrom (i + 1) slots files
    → HoldsFrom i slots (file ∷ files)
HoldsFrom-cons i slots file files here rest zero = ap slots (omega arith) ∙ here
HoldsFrom-cons i slots file files here rest (suc j) = ap slots (omega arith) ∙ rest j

HoldsFrom-nil :
    (i : ℕ) (slots : Slots) → slots i ≡ none → HoldsFrom (i + 1) slots [] → HoldsFrom i slots []
HoldsFrom-nil i slots here rest zero = ap slots (omega arith) ∙ here
HoldsFrom-nil i slots here rest (suc j) = ap slots (omega arith) ∙ rest j

-- The backup at place i after the clean-up of it and of those behind it.
cleanup_from-recent_head :
    (cutoff i : ℕ) (file : LogFile) (files : List LogFile) (slots after : Slots)
    → HoldsFrom i slots (file ∷ files)
    → Falling file.modified files
    → after i ≡ remove_old cutoff i file slots i
    → HoldsFrom (i + 1) after (recent cutoff files)
    → HoldsFrom i after (recent cutoff (file ∷ files))
unfolding remove_old
cleanup_from-recent_head cutoff i file files slots after v falling here rest =
    elim (Bool-cases (ltb file.modified cutoff)) [
      | inl old ↦
          let none_left = recent_old cutoff file.modified files (ground arith) falling in
          rw (old, none_left)
            (HoldsFrom-nil i after (rw old at here ∙ set_self i none slots) (rw none_left at rest))
      | inr fresh ↦
          let there : slots i ≡ some file = ap slots (omega arith) ∙ v 0 in
          rw fresh
            (HoldsFrom-cons i after file (recent cutoff files) (rw fresh at here ∙ there) rest)
    ]

pub cleanup_from-recent :
    (cutoff left i time : ℕ) (slots : Slots) (files : List LogFile)
    → HoldsFrom i slots files
    → Falling time files
    → length files ≤ left
    → HoldsFrom i (cleanup_from cutoff left i slots) (recent cutoff files)
unfolding cleanup_from
cleanup_from-recent cutoff zero i time slots [] v falling few = v
cleanup_from-recent cutoff zero i time slots (file ∷ files) v falling few = absurd (omega arith)
cleanup_from-recent cutoff (suc left) i time slots [] v falling few =
    let gone : slots i ≡ none = ap slots (omega arith) ∙ v 0 in rw (gone, cleanup_from) v
cleanup_from-recent cutoff (suc left) i time slots (file ∷ files) v falling few =
    let there : slots i ≡ some file = ap slots (omega arith) ∙ v 0 in
    let next = remove_old cutoff i file slots in
    rw (there, cleanup_from)
      (cleanup_from-recent_head cutoff i file files slots (cleanup_from cutoff left (i + 1) next) v
        falling.1 (cleanup_from_before cutoff left (i + 1) i next (omega arith))
        (cleanup_from-recent cutoff left (i + 1) file.modified next files
          (remove_old_rest cutoff i file slots files v) falling.1 (omega arith)))
