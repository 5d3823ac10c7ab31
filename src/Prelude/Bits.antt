-- ===== src/Prelude/Bits.antt =====
-- Facts about masks, by evaluation over every byte.
use Prim.Native.Nat.{ℕ, zero, suc, ◌+◌, ◌*◌, ◌/◌, ◌%◌, ◌<◌, bit_and, bit_or}
use mathlib.Core.Path.{◌≡◌, refl, ap}
use mathlib.Core.Bool.{Bool, true, ◌&&◌}
use native.Mathlib.Omega.{arith}
use wally_io.Prelude.Tests.{◌==◌}

-- Whether two functions have the same values on `0 .. n - 1`.
unfoldable pub agreeing : (ℕ → ℕ) → (ℕ → ℕ) → ℕ → Bool
agreeing f g zero = true
agreeing f g (suc n) = (f n == g n) && agreeing f g n

pub agree_below : (n : ℕ) (f g : ℕ → ℕ) → agreeing f g n ≡ true → (x : ℕ) → x < n → f x ≡ g x
unfolding agreeing
agree_below zero f g same x below = absurd (omega arith)
agree_below (suc n) f g same x below =
    let earlier : agreeing f g n ≡ true → x < n → f x ≡ g x =
      λ rest less. agree_below n f g rest x less in
    let last : x ≡ n → (f x ≡ f n) × (g x ≡ g n) = λ e. (ap f e, ap g e) in
    ground (arith, earlier, last)

pub low_seven_bits : (b : ℕ) → b < 256 → bit_and b 0x7f ≡ b % 128
unfolding agreeing
low_seven_bits = agree_below 256 _ _ refl

pub carry_bit : (b : ℕ) → b < 256 → bit_and b 0x80 ≡ b / 128 * 128
unfolding agreeing
carry_bit = agree_below 256 _ _ refl

pub set_carry_bit : (b : ℕ) → b < 128 → bit_or b 0x80 ≡ b + 128
unfolding agreeing
set_carry_bit = agree_below 128 _ _ refl
