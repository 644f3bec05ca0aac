-- ===== src/Prelude/Orders.antt =====
-- Lists in another order.
use mathlib.Core.List.Perm
use mathlib.Core.List.{
  List, ◌++◌, append_assoc, Perm, perm_append_comm, perm-append_left_iff, perm-append_right_iff,
}
use mathlib.Core.Path.{◌≡◌, sym, ap, subst}

module _ {ℓ} {A : Type ℓ} where
  -- A part in the middle goes to the front.
  middle_front :
      (front xs part ys : List A)
      → Perm (front ++ (xs ++ (part ++ ys))) ((front ++ part) ++ (xs ++ ys))
  middle_front front xs part ys =
      subst (λ l. Perm l ((front ++ part) ++ (xs ++ ys)))
        (ap (λ l. front ++ l) (append_assoc xs part ys))
        (subst (Perm (front ++ ((xs ++ part) ++ ys))) (sym (append_assoc front part (xs ++ ys))) (
          subst (λ l. Perm (front ++ ((xs ++ part) ++ ys)) (front ++ l)) (append_assoc part xs ys)
            ((perm-append_left_iff front).1
              ((perm-append_right_iff ys).1 (perm_append_comm xs part)))))

  -- What is moved from there to the front may be taken in another share.
  pub settled :
      (front front' xs part part' ys : List A)
      → front' ++ part' ≡ front ++ part
      → Perm (front' ++ (xs ++ (part' ++ ys))) (front ++ (xs ++ (part ++ ys)))
  settled front front' xs part part' ys e = Perm.trans (middle_front front' xs part' ys) (
      subst (λ l. Perm (l ++ (xs ++ ys)) (front ++ (xs ++ (part ++ ys)))) (sym e)
        (Perm.symm (middle_front front xs part ys)))
