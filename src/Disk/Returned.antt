-- ===== src/Disk/Returned.antt =====
-- What an operation did, when it returned a value: it met no fault, and ran in full.
use yllmd.Base.{
  ℕ, false, String, ◌<>◌, Option, none, some, List, [], ◌∷◌, ◌++◌, Result, ok, err, ◌≡◌, refl,
  arith, ap, sym, ◌∙◌, inl, inr, Bool-cases, take, if◌then◌else◌,
}
use yllmd.Wire.Bytes.{Bytes}
use yllmd.Disk.Paths.{NodePath}
use yllmd.Disk.Actions.{
  Node, folder, file, link, IoError, already_exists, failed, not_exist, Fault, fine, fails, breaks,
  Files, Disk, Io, ◌>>=◌, after, reworded, lift, with_files, draw, faulty,
}
use yllmd.Disk.{
  find, put, drop_under, move, is_folder, exists_at, placed, node_of, target_of, bytes_of, unless,
  stat, write_refusal, symlink_refusal, remove_refusal, rename_refusal, read_link, read_file,
  write_file, create_file, symlink, remove, rename, free_name, make_temp, mkdir_temp, create_temp,
}

-- `m` returned `a` and left `d'`.
abbrev pub Returns : {E A : Type 0} → Io E A → Disk → A → Disk → Type 0
Returns m d a d' = m d ≡ (ok a, d')

pub failed-Returns :
    {E A : Type 0} {C : Type 0} (e : E) (d : Disk) {a : A} {d' : Disk}
    → ◌≡◌ {A = Result E A × Disk} (err e, d) (ok a, d')
    → C
failed-Returns {A = A} e d {a = a} h =
    let failed : ◌≡◌ {A = Result _ A} (err e) (ok a) = ap (λ r. r.0) h in cc

module _ {E A B : Type 0} where
  after-Returns :
      (k : A → Io E B) (r : Result E A) (d : Disk) {b : B} {d' : Disk}
      → after k r d ≡ (ok b, d')
      → (a : A) × (r ≡ ok a) × (k a d ≡ (ok b, d'))
  after-Returns k (ok a) d h = (a, refl, h)
  after-Returns k (err e) d h = failed-Returns e d h

  -- A block that returned has returned at its first step, and in what follows.
  pub bind-Returns :
      (m : Io E A) (k : A → Io E B) (d : Disk) {b : B} {d' : Disk}
      → Returns (m >>= k) d b d'
      → (a : A) × (d₁ : Disk) × Returns m d a d₁ × Returns (k a) d₁ b d'
  unfolding ◌>>=◌
  bind-Returns m k d h =
      let (a, first, rest) = after-Returns k (m d).0 (m d).1 h in
      (a, (m d).1, ap (λ r. (r, (m d).1)) first, rest)

module _ {E F A : Type 0} where
  reworded-Returns :
      (f : E → F) (r : Result E A) (d : Disk) {a : A} {d' : Disk}
      → ◌≡◌ {A = Result F A × Disk} (reworded f r, d) (ok a, d')
      → ◌≡◌ {A = Result E A × Disk} (r, d) (ok a, d')
  reworded-Returns f (ok a) d {a = a'} {d' = d'} h =
      let first : ◌≡◌ {A = Result F A} (ok a) (ok a') = ap (λ r. r.0) h in
      let same : a ≡ a' = cc in let then_at : d ≡ d' = ap (λ r. r.1) h in cc
  reworded-Returns f (err e) d h = failed-Returns (f e) d h

  pub lift-Returns :
      (f : E → F) (m : Io E A) (d : Disk) {a : A} {d' : Disk}
      → Returns (lift f m) d a d'
      → Returns m d a d'
  unfolding lift
  lift-Returns f m d h = reworded-Returns f (m d).0 (m d).1 h

module _ {A : Type 0} where
  draw-Returns :
      (faults : List Fault) (run : Io IoError A) (broken : ℕ → Disk → Disk) (d : Disk) {a : A}
      {d' : Disk}
      → draw faults run broken d ≡ (ok a, d')
      → (fs : List Fault) × (run (record d { faults = fs }) ≡ (ok a, d'))
  unfolding draw
  draw-Returns [] run broken d h = (d.faults, h)
  draw-Returns (fine ∷ fs) run broken d h = (fs, h)
  draw-Returns (fails ∷ fs) run broken d h = failed-Returns failed (record d { faults = fs }) h
  draw-Returns (breaks n ∷ fs) run broken d h =
      failed-Returns failed (broken n (record d { faults = fs })) h

  pub faulty-Returns :
      (run : Io IoError A) (broken : ℕ → Disk → Disk) (d : Disk) {a : A} {d' : Disk}
      → Returns (faulty run broken) d a d'
      → (fs : List Fault) × Returns run (record d { faults = fs }) a d'
  unfolding faulty
  faulty-Returns run broken d h = draw-Returns d.faults run broken d h

unless-Returns :
    {A : Type 0} (o : Option IoError) (d : Disk) (done : Result IoError A × Disk) {a : A}
    {d' : Disk}
    → unless o d done ≡ (ok a, d')
    → done ≡ (ok a, d')
unless-Returns none d done h = h
unless-Returns (some e) d done h = failed-Returns e d h

-- An operation that changes the files alone.
changes-Returns :
    (refusal : Files → Option IoError) (change : Files → Files) (broken : ℕ → Disk → Disk)
    (d : Disk) {d' : Disk}
    → Returns
        (faulty (λ d. unless (refusal d.files) d (ok tt, with_files d (change d.files))) broken)
        d
        tt
        d'
    → d'.files ≡ change d.files
changes-Returns refusal change broken d h =
    let (fs, ran) =
      faulty-Returns (λ d. unless (refusal d.files) d (ok tt, with_files d (change d.files))) broken
        d h in
    let now = record d { faults = fs } in
    sym (
      ap (λ r. r.1.files)
        (unless-Returns (refusal now.files) now (ok tt, with_files now (change now.files)) ran))

target_of-ok :
    (o : Option Node) {target : String} → target_of o ≡ ok target → o ≡ some (link target)
target_of-ok none h = cc
target_of-ok (some folder) h = cc
target_of-ok (some (file bytes)) h = cc
target_of-ok (some (link target)) h = cc

bytes_of-ok : (o : Option Node) {bytes : Bytes} → bytes_of o ≡ ok bytes → o ≡ some (file bytes)
bytes_of-ok none h = cc
bytes_of-ok (some folder) h = cc
bytes_of-ok (some (file bytes)) h = cc
bytes_of-ok (some (link target)) h = cc

node_of-ok : (o : Option Node) {node : Node} → node_of o ≡ ok node → o ≡ some node
node_of-ok none h = cc
node_of-ok (some n) h = cc

pub stat-Returns :
    (p : NodePath) (d : Disk) {node : Node} {d' : Disk}
    → Returns (stat p) d node d'
    → (find p d.files ≡ some node) × (d'.files ≡ d.files)
unfolding stat
stat-Returns p d h =
    let (fs, ran) = faulty-Returns (λ d. (node_of (find p d.files), d)) (λ n d. d) d h in
    (node_of-ok (find p d.files) (ap (λ r. r.0) ran), sym (ap (λ r. r.1.files) ran))

pub read_link-Returns :
    (p : NodePath) (d : Disk) {target : String} {d' : Disk}
    → Returns (read_link p) d target d'
    → (find p d.files ≡ some (link target)) × (d'.files ≡ d.files)
unfolding read_link
read_link-Returns p d h =
    let (fs, ran) = faulty-Returns (λ d. (target_of (find p d.files), d)) (λ n d. d) d h in
    (target_of-ok (find p d.files) (ap (λ r. r.0) ran), sym (ap (λ r. r.1.files) ran))

pub read_file-Returns :
    (p : NodePath) (d : Disk) {bytes : Bytes} {d' : Disk}
    → Returns (read_file p) d bytes d'
    → (find p d.files ≡ some (file bytes)) × (d'.files ≡ d.files)
unfolding read_file
read_file-Returns p d h =
    let (fs, ran) = faulty-Returns (λ d. (bytes_of (find p d.files), d)) (λ n d. d) d h in
    (bytes_of-ok (find p d.files) (ap (λ r. r.0) ran), sym (ap (λ r. r.1.files) ran))

pub write_file-Returns :
    (p : NodePath) (bytes : Bytes) (d : Disk) {d' : Disk}
    → Returns (write_file p bytes) d tt d'
    → d'.files ≡ put p (file bytes) d.files
unfolding write_file
write_file-Returns p bytes d h =
    let change : Files → Files = put p (file bytes) in
    let cut : ℕ → Disk → Disk = λ n d. with_files d (put p (file (take n bytes)) d.files) in
    let done = faulty (λ d. (ok tt, with_files d (change d.files))) cut in
    changes-Returns (λ fs. none) change cut d
      (unless-Returns (write_refusal p d.files) d (done d) h)

pub create_file-Returns :
    (p : NodePath) (bytes : Bytes) (d : Disk) {d' : Disk}
    → Returns (create_file p bytes) d tt d'
    → d'.files ≡ put p (file bytes) d.files
unfolding create_file
create_file-Returns p bytes d h =
    let refusal = if exists_at p d.files then some already_exists else none in
    write_file-Returns p bytes d (unless-Returns refusal d (write_file p bytes d) h)

pub symlink-Returns :
    (target : String) (p : NodePath) (d : Disk) {d' : Disk}
    → Returns (symlink target p) d tt d'
    → d'.files ≡ put p (link target) d.files
unfolding symlink
symlink-Returns target p d h =
    changes-Returns (symlink_refusal p) (put p (link target)) (λ n d. d) d h

pub remove-Returns :
    (p : NodePath) (d : Disk) {d' : Disk}
    → Returns (remove p) d tt d'
    → d'.files ≡ drop_under p d.files
unfolding remove
remove-Returns p d h = changes-Returns (remove_refusal p) (drop_under p) (λ n d. d) d h

pub rename-Returns :
    (p p' : NodePath) (d : Disk) {d' : Disk}
    → Returns (rename p p') d tt d'
    → d'.files ≡ move p p' d.files
unfolding rename
rename-Returns p p' d h = changes-Returns (rename_refusal p p') (move p p') (λ n d. d) d h

-- The path of a temporary folder.
pub free_name-path :
    (dir : NodePath) (name : String → String) (ss : List String) (fs : Files) {p : NodePath}
    {ss' : List String}
    → free_name dir name ss fs ≡ some (p, ss')
    → (s : String) × (p ≡ dir ++ (name s ∷ [])) × (exists_at p fs ≡ false)
unfolding free_name
free_name-path dir name [] fs h = cc
free_name-path dir name (s ∷ ss) fs {p = p} {ss' = ss'} h =
    elim (Bool-cases (exists_at (dir ++ (name s ∷ [])) fs)) [
      | inl taken ↦ free_name-path dir name ss fs {p = p} {ss' = ss'} (ground arith)
      | inr free ↦
          let p0 = dir ++ (name s ∷ []) in
          let e : ◌≡◌ {A = Option (NodePath × List String)} (some (p0, ss)) (some (p, ss')) =
            ground arith in
          let same : p0 ≡ p = ground arith in
          (s, sym same, sym (ap (λ x. exists_at x fs) same) ∙ free)
    ]

placed-Returns :
    (n : Node) (o : Option (NodePath × List String)) (d : Disk) {p : NodePath} {d' : Disk}
    → placed n o d ≡ (ok p, d')
    → (ss : List String) × (o ≡ some (p, ss))
placed-Returns n none d h = failed-Returns already_exists d h
placed-Returns n (some (p, ss)) d {p = p'} h =
    let first : ◌≡◌ {A = Result IoError NodePath} (ok p) (ok p') = ap (λ r. r.0) h in
    let same : p ≡ p' = cc in (ss, ap (λ x. some (x, ss)) same)

make_temp-Returns :
    (n : Node) (dir : NodePath) (name : String → String) (d : Disk) {p : NodePath} {d' : Disk}
    → Returns (make_temp n dir name) d p d'
    → (s : String) × (p ≡ dir ++ (name s ∷ []))
unfolding make_temp
make_temp-Returns n dir name d {p = p} h =
    let (fs, ran) =
      faulty-Returns
        (λ d.
          unless (if is_folder dir d.files then none else some not_exist) d
            (placed n (free_name dir name d.suffixes d.files) d))
        (λ m d. d) d h in
    let now = record d { faults = fs } in
    let refusal = if is_folder dir d.files then none else some not_exist in
    let ready =
      unless-Returns refusal now (placed n (free_name dir name d.suffixes d.files) now) ran in
    let (ss, free) = placed-Returns n (free_name dir name d.suffixes d.files) now ready in
    let (s, place, _) = free_name-path dir name d.suffixes d.files free in (s, place)

pub mkdir_temp-Returns :
    (dir : NodePath) (prefix : String) (d : Disk) {p : NodePath} {d' : Disk}
    → Returns (mkdir_temp dir prefix) d p d'
    → (s : String) × (p ≡ dir ++ ((prefix <> s) ∷ []))
unfolding mkdir_temp
mkdir_temp-Returns dir prefix d h = make_temp-Returns folder dir (λ s. prefix <> s) d h

pub create_temp-Returns :
    (dir : NodePath) (prefix suffix : String) (d : Disk) {p : NodePath} {d' : Disk}
    → Returns (create_temp dir prefix suffix) d p d'
    → (s : String) × (p ≡ dir ++ ((prefix <> s <> suffix) ∷ []))
unfolding create_temp
create_temp-Returns dir prefix suffix d h =
    make_temp-Returns (file []) dir (λ s. prefix <> s <> suffix) d h
