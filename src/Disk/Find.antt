-- ===== src/Disk/Find.antt =====
-- What stands at a path after a change of the files.
use yllmd.Base.{
  ℕ, zero, suc, true, false, none, some, [], ◌∷◌, ◌++◌, ◌≡◌, refl, arith, ◌==◌, if◌then◌else◌, ap,
  sym, ◌∙◌,
}
use mathlib.Core.List.{append-nil}
use yllmd.Disk.Paths.{
  NodePath, same_path_iff, path_eq, same_path, is_under, relabel, relabel-outside, relabel-inside,
}
use yllmd.Disk.Actions.{Node, Files}
use yllmd.Disk.{find, put, drop_under, drop_some, relabel_all, move}

pub find-put :
    (q p : NodePath) (n : Node) (fs : Files)
    → find q (put p n fs) ≡ (if p == q then some n else find q fs)
unfolding find put
find-put q p n [] = refl
find-put q p n ((k, old) ∷ fs) =
    ground
      (arith, path_eq.same_iff k p, path_eq.same_iff p q, path_eq.same_iff k q, find-put q p n fs)

pub find-drop_under :
    (q p : NodePath) (fs : Files)
    → find q (drop_under p fs) ≡ (if is_under p q then none else find q fs)
unfolding find drop_under
find-drop_under q p [] = ground arith
find-drop_under q p ((k, n) ∷ fs) = ground (arith, path_eq.same_iff k q, find-drop_under q p fs)

pub find-drop_some :
    (n : ℕ) (p q : NodePath) (fs : Files)
    → is_under p q ≡ false
    → find q (drop_some n p fs) ≡ find q fs
unfolding find drop_some
find-drop_some zero p q fs h = refl
find-drop_some (suc n) p q [] h = refl
find-drop_some (suc n) p q ((k, x) ∷ fs) h =
    ground (arith, path_eq.same_iff k q, find-drop_some n p q fs h, find-drop_some (suc n) p q fs h)

-- A path that is under neither end of a move.
find-relabel_all-outside :
    (p p' q : NodePath) (fs : Files)
    → is_under p q ≡ false
    → is_under p' q ≡ false
    → find q (relabel_all p p' fs) ≡ find q fs
unfolding find relabel_all relabel
find-relabel_all-outside p p' q [] h h' = refl
find-relabel_all-outside p p' q ((k, x) ∷ fs) h h' =
    rw (relabel-outside p p' q k h h', find-relabel_all-outside p p' q fs h h') refl

pub find-move-outside :
    (p p' q : NodePath) (fs : Files)
    → is_under p q ≡ false
    → is_under p' q ≡ false
    → find q (move p p' fs) ≡ find q fs
unfolding move
find-move-outside p p' q fs h h' =
    find-relabel_all-outside p p' q (drop_under p' fs) h h'
    ∙ find-drop_under q p' fs
    ∙ ap (λ b. if b then none else find q fs) h'

-- What was under the first end of a move is under the second.
pub find-move-inside :
    (p p' r : NodePath) (fs : Files)
    → is_under p' (p ++ r) ≡ false
    → find (p' ++ r) (move p p' fs) ≡ find (p ++ r) fs
unfolding move relabel_all drop_under find
find-move-inside p p' r [] h = refl
find-move-inside p p' r ((k, x) ∷ fs) h =
    let stays : same_path k (p ++ r) ≡ true → is_under p' k ≡ false =
      λ same. ap (is_under p') ((same_path_iff k (p ++ r)).0 same) ∙ h in
    ground (arith, find-move-inside p p' r fs h, relabel-inside p p' r k, stays)

same_path_self : (p : NodePath) → same_path p p ≡ true
same_path_self p = (same_path_iff p p).1 refl

pub find-put_same : (p : NodePath) (n : Node) (fs : Files) → find p (put p n fs) ≡ some n
find-put_same p n fs =
    find-put p p n fs ∙ ap (λ b. if b then some n else find p fs) (same_path_self p)

-- A node that is moved alone.
pub find-move_end :
    (p p' : NodePath) (fs : Files) → is_under p' p ≡ false → find p' (move p p' fs) ≡ find p fs
find-move_end p p' fs h =
    ap (λ x. find x (move p p' fs)) (sym (append-nil p'))
    ∙ find-move-inside p p' [] fs (ap (is_under p') (append-nil p) ∙ h)
    ∙ ap (λ x. find x fs) (append-nil p)
