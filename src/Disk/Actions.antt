-- ===== src/Disk/Actions.antt =====
-- The machine below the program: its files, the faults that its operations will meet, and actions on it
-- that return a value or an error, as Go functions do. What was written before an error stays written.
use yllmd.Base.{ℕ, Bool, String, List, [], ◌∷◌, Result, ok, err, if◌then◌else◌}
use yllmd.Wire.Bytes.{Bytes}
use yllmd.Disk.Paths.{NodePath}

pub data Node : Type 0 where
  folder : Node
  file : Bytes → Node
  link : String → Node

pub data IoError : Type 0 where
  not_exist already_exists not_folder not_file not_link not_empty failed : IoError

pub data Fault : Type 0 where
  fine fails : Fault
  breaks : ℕ → Fault

abbrev pub Files : Type 0
Files = List (NodePath × Node)

-- `suffixes` are the random texts that temporary names take.
pub record Disk : Type 0 where
  pub files : Files
  pub faults : List Fault
  pub suffixes : List String

abbrev pub Io : Type 0 → Type 0 → Type 0
Io E A = Disk → Result E A × Disk

module _ {E A : Type 0} where
  unfoldable pub pure : A → Io E A
  pure a d = (ok a, d)

  unfoldable pub raise : E → Io E A
  raise e d = (err e, d)

-- `if b { return e }`
unfoldable pub refuse : {E : Type 0} → Bool → E → Io E (Unit {0})
unfolding pure raise
refuse b e = if b then raise e else pure tt

module _ {E A B : Type 0} where
  abbrev pub after : (A → Io E B) → Result E A → Io E B
  after f (ok a) d = f a d
  after f (err e) d = (err e, d)

  infixl 5 ◌>>=◌ ◌>>◌
  unfoldable pub ◌>>=◌ : Io E A → (A → Io E B) → Io E B
  ◌>>=◌ m f d = let (r, d') = m d in after f r d'

  abbrev pub ◌>>◌ : Io E A → Io E B → Io E B
  m >> k = m >>= λ _. k

-- The outcome as a value: `a, err := ...`.
unfoldable pub try : {E F A : Type 0} → Io E A → Io F (Result E A)
try m d = let (r, d') = m d in (ok r, d')

-- `_ = ...`
unfoldable pub ignore : {E F A : Type 0} → Io E A → Io F (Unit {0})
ignore m d = (ok tt, (m d).1)

abbrev pub reworded : {E F A : Type 0} → (E → F) → Result E A → Result F A
reworded f (ok a) = ok a
reworded f (err e) = err (f e)

-- `return err`, in an error type of its own.
unfoldable pub lift : {E F A : Type 0} → (E → F) → Io E A → Io F A
lift f m d = let (r, d') = m d in (reworded f r, d')

abbrev pub with_files : Disk → Files → Disk
with_files d fs = record d { files = fs }

unfoldable pub draw : {A : Type 0} → List Fault → Io IoError A → (ℕ → Disk → Disk) → Io IoError A
draw [] run broken d = run d
draw (fine ∷ fs) run broken d = run (record d { faults = fs })
draw (fails ∷ fs) run broken d = (err failed, record d { faults = fs })
draw (breaks n ∷ fs) run broken d = (err failed, broken n (record d { faults = fs }))

-- An operation with what it leaves when it breaks off.
unfoldable pub faulty : {A : Type 0} → Io IoError A → (ℕ → Disk → Disk) → Io IoError A
unfolding draw
faulty run broken d = draw d.faults run broken d
