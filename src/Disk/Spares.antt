-- ===== src/Disk/Spares.antt =====
-- Actions that leave what stands at a path as it is, whatever faults they meet and however they end.
use yllmd.Base.{
  ℕ, Bool, true, false, String, ◌<>◌, some, List, [], ◌∷◌, ◌++◌, Result, ok, err, ◌≡◌, refl, arith,
  ap, sym, ◌∙◌, inl, inr, Option-cases, take, if◌then◌else◌,
}
use mathlib.Core.List.{append_assoc}
use mathlib.Core.Path.{subst}
use yllmd.Wire.Bytes.{Bytes}
use yllmd.Disk.Paths.{
  NodePath, path_eq, same_path_sym, is_under, outside-append, outside-prefix, outside-apart,
}
use yllmd.Disk.Actions.{
  Node, folder, file, link, IoError, Fault, fine, fails, breaks, Files, Disk, Io, pure, raise,
  refuse, ◌>>=◌, try, ignore, lift, with_files, after, draw, faulty,
}
use yllmd.Disk.{
  find, put, stat, read_link, read_file, read_dir, write_file, create_file, symlink, remove,
  remove_all, rename, make_folders, mkdir_all, free_name, make_temp, mkdir_temp, walk_sizes,
}
use yllmd.Disk.Returned.{free_name-path, mkdir_temp-Returns, lift-Returns}
use yllmd.Disk.Find.{find-put, find-drop_under, find-drop_some, find-move-outside}

pub record Spares {E A : Type 0} (q : NodePath) (m : Io E A) : Type 0 where
  pub at : (d : Disk) → find q (m d).1.files ≡ find q d.files

module _ {q : NodePath} {E A : Type 0} where
  pub Spares-pure : (a : A) → Spares q (pure {E = E} a)
  unfolding pure
  Spares-pure a = record { at = λ d. refl }

  pub Spares-raise : (e : E) → Spares q (raise {A = A} e)
  unfolding raise
  Spares-raise e = record { at = λ d. refl }

  pub Spares-if :
      (b : Bool) (m k : Io E A) → Spares q m → Spares q k → Spares q (if b then m else k)
  Spares-if true m k sm sk = sm
  Spares-if false m k sm sk = sk

pub Spares-refuse : {q : NodePath} {E : Type 0} (b : Bool) (e : E) → Spares q (refuse b e)
unfolding refuse
Spares-refuse true e = record { at = λ d. refl }
Spares-refuse false e = record { at = λ d. refl }

-- What follows a guard may use that it let the action pass.
pub Spares-refuse_bind :
    {q : NodePath} {E B : Type 0} (b : Bool) (e : E) (k : Unit {0} → Io E B)
    → (b ≡ false → Spares q (k tt))
    → Spares q (refuse b e >>= k)
unfolding refuse ◌>>=◌
Spares-refuse_bind true e k sk = record { at = λ d. refl }
Spares-refuse_bind false e k sk = record { at = (sk refl).at }

module _ {q : NodePath} {E A B : Type 0} where
  Spares-after :
      (k : A → Io E B) (r : Result E A) (d : Disk)
      → ((a : A) → r ≡ ok a → Spares q (k a))
      → find q (after k r d).1.files ≡ find q d.files
  Spares-after k (ok a) d sk = (sk a refl).at d
  Spares-after k (err e) d sk = refl

  -- What follows may use that the action returned.
  pub Spares-bind_returned :
      (m : Io E A) (k : A → Io E B)
      → Spares q m
      → ((a : A) (d : Disk) → (m d).0 ≡ ok a → Spares q (k a))
      → Spares q (m >>= k)
  unfolding ◌>>=◌
  Spares-bind_returned m k sm sk = record {
    at = λ d. Spares-after k (m d).0 (m d).1 (λ a h. sk a d h) ∙ sm.at d;
  }

  pub Spares-bind :
      (m : Io E A) (k : A → Io E B) → Spares q m → ((a : A) → Spares q (k a)) → Spares q (m >>= k)
  Spares-bind m k sm sk = Spares-bind_returned m k sm (λ a d h. sk a)

module _ {q : NodePath} {E F A : Type 0} where
  pub Spares-try : (m : Io E A) → Spares q m → Spares q (try {F = F} m)
  unfolding try
  Spares-try m sm = record { at = sm.at }

  pub Spares-ignore : (m : Io E A) → Spares q m → Spares q (ignore {F = F} m)
  unfolding ignore
  Spares-ignore m sm = record { at = sm.at }

  pub Spares-lift : (f : E → F) (m : Io E A) → Spares q m → Spares q (lift f m)
  unfolding lift
  Spares-lift f m sm = record { at = sm.at }

pub ruleset spares_rules = (
  Spares-pure, Spares-raise, Spares-refuse, Spares-if, Spares-bind, Spares-try, Spares-ignore,
  Spares-lift,
)

module _ {q : NodePath} {A : Type 0} where
  Spares-draw :
      (faults : List Fault) (run : Io IoError A) (broken : ℕ → Disk → Disk) (d : Disk)
      → Spares q run
      → ((n : ℕ) (d' : Disk) → find q (broken n d').files ≡ find q d'.files)
      → find q (draw faults run broken d).1.files ≡ find q d.files
  unfolding draw
  Spares-draw [] run broken d sr sb = sr.at d
  Spares-draw (fine ∷ fs) run broken d sr sb = sr.at (record d { faults = fs })
  Spares-draw (fails ∷ fs) run broken d sr sb = refl
  Spares-draw (breaks n ∷ fs) run broken d sr sb = sb n (record d { faults = fs })

  pub Spares-faulty :
      (run : Io IoError A) (broken : ℕ → Disk → Disk)
      → ((d : Disk) → find q (run d).1.files ≡ find q d.files)
      → ((n : ℕ) (d : Disk) → find q (broken n d).files ≡ find q d.files)
      → Spares q (faulty run broken)
  unfolding faulty
  Spares-faulty run broken sr sb = record {
    at = λ d. Spares-draw d.faults run broken d (record { at = sr }) sb;
  }

pub find-put_apart :
    (q p : NodePath) (n : Node) (fs : Files)
    → is_under p q ≡ false
    → find q (put p n fs) ≡ find q fs
find-put_apart q p n fs h =
    find-put q p n fs ∙ ap (λ b. if b then some n else find q fs) (outside-apart p q h)

make_folders-find :
    (q base rest : NodePath) (d : Disk)
    → is_under q (base ++ rest) ≡ false
    → find q (make_folders base rest d).1.files ≡ find q d.files
unfolding make_folders
make_folders-find q base [] d h = refl
make_folders-find q base (c ∷ rest) d h =
    let p = base ++ (c ∷ []) in
    let h' : is_under q (p ++ rest) ≡ false = rw (append_assoc base (c ∷ []) rest) h in
    let apart = same_path_sym p q ∙ outside-apart q p (outside-prefix q p rest h') in
    let placed =
      find-put q p folder d.files ∙ ap (λ b. if b then some folder else find q d.files) apart in
    ground (
      arith,
      make_folders-find q p rest d h',
      make_folders-find q p rest (with_files d (put p folder d.files)) h',
      placed,
    )

module _ {q : NodePath} where
  pub Spares-stat : (p : NodePath) → Spares q (stat p)
  unfolding stat
  Spares-stat p = Spares-faulty _ _ (λ d. refl) (λ n d. refl)

  pub Spares-read_link : (p : NodePath) → Spares q (read_link p)
  unfolding read_link
  Spares-read_link p = Spares-faulty _ _ (λ d. ground arith) (λ n d. refl)

  pub Spares-read_file : (p : NodePath) → Spares q (read_file p)
  unfolding read_file
  Spares-read_file p = Spares-faulty _ _ (λ d. ground arith) (λ n d. refl)

  pub Spares-read_dir : (p : NodePath) → Spares q (read_dir p)
  unfolding read_dir
  Spares-read_dir p = Spares-faulty _ _ (λ d. ground arith) (λ n d. refl)

  pub Spares-walk_sizes : (p : NodePath) → Spares q (walk_sizes p)
  unfolding walk_sizes
  Spares-walk_sizes p = Spares-faulty _ _ (λ d. ground arith) (λ n d. refl)

  pub Spares-symlink :
      (target : String) (p : NodePath) → is_under p q ≡ false → Spares q (symlink target p)
  unfolding symlink
  Spares-symlink target p h =
      Spares-faulty _ _ (λ d. ground (arith, find-put_apart q p (link target) d.files h))
        (λ n d. refl)

  pub Spares-remove : (p : NodePath) → is_under p q ≡ false → Spares q (remove p)
  unfolding remove
  Spares-remove p h =
      Spares-faulty _ _ (λ d. ground (arith, find-drop_under q p d.files)) (λ n d. refl)

  pub Spares-remove_all : (p : NodePath) → is_under p q ≡ false → Spares q (remove_all p)
  unfolding remove_all
  Spares-remove_all p h =
      Spares-faulty _ _ (λ d. ground (arith, find-drop_under q p d.files))
        (λ n d. find-drop_some n p q d.files h)

  pub Spares-rename :
      (p p' : NodePath) → is_under p q ≡ false → is_under p' q ≡ false → Spares q (rename p p')
  unfolding rename
  Spares-rename p p' h h' =
      Spares-faulty _ _ (λ d. ground (arith, find-move-outside p p' q d.files h h')) (λ n d. refl)

  pub Spares-write_file :
      (p : NodePath) (bytes : Bytes) → is_under p q ≡ false → Spares q (write_file p bytes)
  unfolding write_file
  Spares-write_file p bytes h =
      let writes : Spares q (
          faulty (λ d. (ok tt, with_files d (put p (file bytes) d.files)))
            (λ n d. with_files d (put p (file (take n bytes)) d.files))) =
        Spares-faulty _ _ (λ d. find-put_apart q p (file bytes) d.files h)
          (λ n d. find-put_apart q p (file (take n bytes)) d.files h) in
      record { at = λ d. ground (arith, writes.at d) }

  pub Spares-create_file :
      (p : NodePath) (bytes : Bytes) → is_under p q ≡ false → Spares q (create_file p bytes)
  unfolding create_file
  Spares-create_file p bytes h = record {
    at = λ d. ground (arith, (Spares-write_file p bytes h).at d);
  }

  pub Spares-mkdir_all : (p : NodePath) → is_under q p ≡ false → Spares q (mkdir_all p)
  unfolding mkdir_all
  Spares-mkdir_all p h = Spares-faulty _ _ (λ d. make_folders-find q [] p d h) (λ n d. refl)

  pub Spares-mkdir_temp :
      (dir : NodePath) (prefix : String) → is_under dir q ≡ false → Spares q (mkdir_temp dir prefix)
  unfolding mkdir_temp make_temp
  Spares-mkdir_temp dir prefix h =
      Spares-faulty _ _
        (λ d. elim (Option-cases (free_name dir (λ x. prefix <> x) d.suffixes d.files)) [
          | inl none_free ↦ ground arith
          | inr ((p, ss), found) ↦
              let (s, place, _) = free_name-path dir (λ x. prefix <> x) d.suffixes d.files found in
              let outside : is_under p q ≡ false =
                ap (λ x. is_under x q) place ∙ outside-append dir ((prefix <> s) ∷ []) q h in
              ground (arith, find-put_apart q p folder d.files outside)
        ])
        (λ n d. refl)

  -- What follows the making of a temporary folder, which stands outside `q`.
  pub Spares-mkdir_temp_bind :
      {E B : Type 0} (f : IoError → E) (dir : NodePath) (prefix : String) (k : NodePath → Io E B)
      → is_under dir q ≡ false
      → ((s : String) → Spares q (k (dir ++ ((prefix <> s) ∷ []))))
      → Spares q (lift f (mkdir_temp dir prefix) >>= k)
  Spares-mkdir_temp_bind f dir prefix k h sk =
      Spares-bind_returned (lift f (mkdir_temp dir prefix)) k
        (Spares-lift f (mkdir_temp dir prefix) (Spares-mkdir_temp dir prefix h))
        (λ p d made.
          let whole = ap (λ r. (r, (lift f (mkdir_temp dir prefix) d).1)) made in
          let (s, place) =
            mkdir_temp-Returns dir prefix d (lift-Returns f (mkdir_temp dir prefix) d whole) in
          subst (λ x. Spares q (k x)) (sym place) (sk s))
