-- ===== src/Prelude/Decimal.antt =====
-- fmt's %d for a number that is not negative.
use Prim.Native.Nat.{ℕ, zero, suc, ◌+◌, ◌*◌, ◌/◌, ◌%◌, ◌<◌}
use Prim.Native.Char.{Char, code}
use Prim.Native.String.{String, [], ◌∷◌, ◌++◌}
use mathlib.Core.Path.{◌≡◌, refl, sym, subst}
use mathlib.Core.Bool.{Bool, true, false}
use native.Mathlib.Omega.{arith}
use go_tableland.Prelude.Tests.{ltb, if◌then◌else◌}

digit : ℕ → String
digit zero = "0"
digit (suc zero) = "1"
digit (suc (suc zero)) = "2"
digit (suc (suc (suc zero))) = "3"
digit (suc (suc (suc (suc zero)))) = "4"
digit (suc (suc (suc (suc (suc zero))))) = "5"
digit (suc (suc (suc (suc (suc (suc zero)))))) = "6"
digit (suc (suc (suc (suc (suc (suc (suc zero))))))) = "7"
digit (suc (suc (suc (suc (suc (suc (suc (suc zero)))))))) = "8"
digit _ = "9"

-- A number has fewer digits than itself plus one.
decimal_from : ℕ → ℕ → String
unfolding digit
decimal_from zero n = ""
decimal_from (suc fuel) n =
    let higher = decimal_from fuel (n / 10) ++ digit (n % 10) in
    if ltb n 10 then digit n else higher

unfoldable pub decimal : ℕ → String
unfolding decimal_from
decimal n = decimal_from (suc n) n

decimal_runs : decimal 1337 ≡ "1337"
unfolding decimal
decimal_runs = refl

digit-code : (d : ℕ) → d < 10 → (c : Char) × (digit d ≡ c ∷ []) × (code c ≡ 48 + d)
unfolding digit
digit-code zero h = ("0", refl, refl)
digit-code (suc zero) h = ("1", refl, refl)
digit-code (suc (suc zero)) h = ("2", refl, refl)
digit-code (suc (suc (suc zero))) h = ("3", refl, refl)
digit-code (suc (suc (suc (suc zero)))) h = ("4", refl, refl)
digit-code (suc (suc (suc (suc (suc zero))))) h = ("5", refl, refl)
digit-code (suc (suc (suc (suc (suc (suc zero)))))) h = ("6", refl, refl)
digit-code (suc (suc (suc (suc (suc (suc (suc zero))))))) h = ("7", refl, refl)
digit-code (suc (suc (suc (suc (suc (suc (suc (suc zero)))))))) h = ("8", refl, refl)
digit-code (suc (suc (suc (suc (suc (suc (suc (suc (suc zero))))))))) h = ("9", refl, refl)
digit-code (suc (suc (suc (suc (suc (suc (suc (suc (suc (suc d)))))))))) h = absurd (omega arith)

module _ (P : ℕ → String → Type 0)
    (one : (d : ℕ) (c : Char) → d < 10 → code c ≡ 48 + d → P d (c ∷ []))
    (more : (n d : ℕ) (c : Char) (s : String)
      → d < 10
      → code c ≡ 48 + d
      → P n s
      → P (n * 10 + d) (s ++ (c ∷ []))) where
  one_digit : (d : ℕ) → d < 10 → P d (digit d)
  one_digit d h = let (c, e, k) = digit-code d h in subst (P d) (sym e) (one d c h k)

  longer : (n : ℕ) (s : String) → ltb n 10 ≡ false → P (n / 10) s → P n (s ++ digit (n % 10))
  longer n s e shorter =
      let small : n % 10 < 10 = omega arith in
      let (c, f, k) = digit-code (n % 10) small in
      let same : n / 10 * 10 + n % 10 ≡ n = omega arith in
      subst (λ m. P m (s ++ digit (n % 10))) same
        (subst (λ t. P (n / 10 * 10 + n % 10) (s ++ t)) (sym f)
          (more (n / 10) (n % 10) c s small k shorter))

  either_length :
      (n : ℕ) (s : String) (b : Bool)
      → ltb n 10 ≡ b
      → (ltb n 10 ≡ false → P (n / 10) s)
      → P n (if b then digit n else s ++ digit (n % 10))
  either_length n s true e shorter = one_digit n (ground (arith, e))
  either_length n s false e shorter = longer n s e (shorter e)

  decimal_from-digits : (fuel n : ℕ) → n < fuel → P n (decimal_from fuel n)
  unfolding decimal_from
  decimal_from-digits zero n h = absurd (omega arith)
  decimal_from-digits (suc fuel) n h =
      either_length n (decimal_from fuel (n / 10)) (ltb n 10) refl
        λ e. decimal_from-digits fuel (n / 10) (ground (arith, e, h))

  -- The digits of a number, from the first.
  pub decimal-digits : (n : ℕ) → P n (decimal n)
  unfolding decimal
  decimal-digits n = decimal_from-digits (suc n) n (omega arith)
