-- ===== src/ThreadPool/Lists.antt =====
-- What the lists of workers hold.
use primordialsoup.Base.{
  ℕ, suc, ◌+◌, ◌≡◌, ◌≢◌, refl, sym, ap, ◌∙◌, Bool, true, false, List, [], ◌∷◌, ◌==◌, if◌then◌else◌,
  length, u64, arith, ℕ_discrete,
}
use primordialsoup.ThreadPool.{has, remove_worker, stop_all}

abbrev pub NoneTwice : List ℕ → Type 0
NoneTwice [] = Unit {0}
NoneTwice (x ∷ xs) = (has x xs ≡ false) × NoneTwice xs

same_test : (x w : ℕ) → x ≡ w → (x == w) ≡ true
same_test x w h = ground arith

other_test : (x w : ℕ) → x ≢ w → (x == w) ≡ false
other_test x w h = ground arith

tested : (x w : ℕ) → (x == w) ≡ true → x ≡ w
tested x w h = ground arith

pub has_self : (w : ℕ) (xs : List ℕ) → has w (w ∷ xs) ≡ true
has_self w xs = rw (same_test w w refl) refl

pub has_other : (v w : ℕ) (xs : List ℕ) → w ≢ v → has v (w ∷ xs) ≡ has v xs
has_other v w xs h = rw (other_test w v h) refl

-- The list without a worker that it holds once.
pub record Removes (w : ℕ) (xs : List ℕ) (p : Bool × List ℕ) : Type 0 where
  pub found : p.0 ≡ has w xs
  pub others : (v : ℕ) → w ≢ v → has v p.1 ≡ has v xs
  pub gone : has w p.1 ≡ false
  pub set : NoneTwice p.1
  pub fewer : has w xs ≡ true → length xs ≡ suc (length p.1)

pub remove_worker-Removes : (w : ℕ) (xs : List ℕ) → NoneTwice xs → Removes w xs (remove_worker w xs)
unfolding remove_worker
remove_worker-Removes w [] h = record {
  found = refl;
  others = λ v d. refl;
  gone = refl;
  set = tt;
  fewer = λ e. cc;
}
remove_worker-Removes w (x ∷ xs) h =
    let ih = remove_worker-Removes w xs h.1 in
    elim (ℕ_discrete x w) [
      | yes e ↦ rw (same_test x w e) (record {
        found = rw (same_test x w e) refl;
        others = λ v d. sym (has_other v x xs (λ f. d (sym e ∙ f)));
        gone = ap (λ (t : ℕ). has t xs) (sym e) ∙ h.0;
        set = h.1;
        fewer = λ t. refl;
      })
      | no d ↦ rw (other_test x w d) (record {
        found = rw (other_test x w d) (ih.found);
        others = λ v f. ap (λ (b : Bool). if x == v then true else b) (ih.others v f);
        gone = rw (other_test x w d) ih.gone;
        set = (ih.others x (λ f. d (sym f)) ∙ h.0, ih.set);
        fewer = λ t. ap suc (ih.fewer (sym (has_other w x xs d) ∙ t));
      })
    ]

pub stop_all-is : (ws : List ℕ) (n : ℕ) → u64 (stop_all ws n) ≡ u64 (n + length ws)
stop_all-is [] n = omega arith
stop_all-is (w ∷ ws) n = omega (arith, stop_all-is ws (u64 (n + 1)))

pub stop_all-u64 : (ws : List ℕ) (n : ℕ) → n ≡ u64 n → stop_all ws n ≡ u64 (stop_all ws n)
stop_all-u64 [] n h = h
stop_all-u64 (w ∷ ws) n h = stop_all-u64 ws (u64 (n + 1)) (omega arith)
