-- ===== src/Unicycle/Filter/Scaling.antt =====
-- common_types.cpp, `expm2x2`: the loop that scales a matrix.
use xgc2_ugv_controller.Base.{
  ℕ, zero, suc, ◌+◌, ◌<◌, ◌≤◌, ◌≡◌, refl, true, false, Option, none, some, Bool-cases, inl, inr,
  arith,
}
use xgc2_ugv_controller.Floating.{Double, lit, ◌⊗◌, ◌≺◌}
use xgc2_ugv_controller.Unicycle.Filter.{Matrix, halved, scale}

module _ {D : Type 0} ⦃f : Double D⦄ where
  -- A norm that is halved some times
  abbrev halvings : ℕ → D → D
  halvings zero norm = norm
  halvings (suc k) norm = halvings k (norm ⊗ lit 5 1)

  -- What a loop that ends gives: the halvings counted, at most `k` after those before.
  record Ends (squares k : ℕ) (o : Option (Matrix D × ℕ)) : Type 0 where
    result : Matrix D × ℕ
    returned : o ≡ some result
    counted : squares ≤ result.1
    bounded : result.1 ≤ squares + k

  -- The loop that scales a matrix returns where some number of halvings, less than the fuel, brings the
  -- norm to one half or below, and then it has counted that many halvings at most.
  scale-Ends :
      (fuel k : ℕ) (norm : D) (s : Matrix D) (squares : ℕ)
      → k < fuel
      → (lit 5 1 ≺ halvings k norm) ≡ false
      → Ends squares k (scale fuel norm s squares)
  unfolding scale
  scale-Ends zero k norm s squares below small = absurd (omega arith)
  scale-Ends (suc fuel) zero norm s squares below small = rw small (record {
    result = (s, squares);
    returned = refl;
    counted = omega arith;
    bounded = omega arith;
  })
  scale-Ends (suc fuel) (suc k) norm s squares below small =
      let e = scale-Ends fuel k (norm ⊗ lit 5 1) (halved s) (suc squares) (omega arith) small in
      elim (Bool-cases (lit 5 1 ≺ norm)) [
        | inr done ↦ rw done (record {
          result = (s, squares);
          returned = refl;
          counted = omega arith;
          bounded = omega arith;
        })
        | inl above ↦ rw above (record {
          result = e.result;
          returned = e.returned;
          counted = omega (arith, e.counted);
          bounded = omega (arith, e.bounded);
        })
      ]

  -- Where no number of halvings does that, as with an infinite norm, it does not return.
  scale-none :
      (fuel : ℕ) (norm : D) (s : Matrix D) (squares : ℕ)
      → ((k : ℕ) → (lit 5 1 ≺ halvings k norm) ≡ true)
      → scale fuel norm s squares ≡ none
  unfolding scale
  scale-none zero norm s squares above = refl
  scale-none (suc fuel) norm s squares above =
      rw (above 0) (scale-none fuel (norm ⊗ lit 5 1) (halved s) (suc squares) (λ k. above (suc k)))
