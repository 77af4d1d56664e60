-- ===== src/Tree/Capacity.antt =====
-- The room of a history's vector, whose elements move when it is full (`notify_sent_signal` of
-- src/tracer/process.cpp).
use native.Mathlib.Nat.{pow-succ', pow-le-pow_right}
use forktrace.Prelude.{
  dec_lt, ℕ, zero, suc, ◌+◌, ◌*◌, ◌^◌, ◌<◌, ◌≤◌, ◌≡◌, ◌≢◌, refl, sym, ◌∙◌, ◌==◌, ==_iff, Bool, true,
  false, Bool-cases, inl, inr, if◌then◌else◌, max, arith,
}
use forktrace.Tree.{capacity, is_full}

-- The room is a power of two, less than twice what there is.
record Fits (n room : ℕ) : Type 0 where
  exponent : ℕ
  power : room ≡ 2 ^ exponent
  enough : n ≤ room
  tight : room < 2 * n

pow_suc : (k : ℕ) → 2 ^ suc k ≡ 2 * 2 ^ k
pow_suc k = pow-succ' 2 k

Fits-grown :
    (n room : ℕ) (b : Bool)
    → 0 < n
    → (room == n) ≡ b
    → Fits n room
    → Fits (suc n) (if b then n + max n 1 else room)
Fits-grown n room true h e f = record {
  exponent = suc f.exponent;
  power = omega (arith, pow_suc f.exponent, f.power, (==_iff room n).0 e);
  enough = omega arith;
  tight = omega arith;
}
Fits-grown n room false h e f = record {
  exponent = f.exponent;
  power = f.power;
  enough = let l = f.enough in ground (arith, e, l);
  tight = omega (arith, f.tight);
}

capacity-Fits : (n : ℕ) → Fits (suc n) (capacity (suc n))
unfolding capacity
capacity-Fits zero = record {
  exponent = 0;
  power = refl;
  enough = omega arith;
  tight = omega arith;
}
capacity-Fits (suc n) =
    Fits-grown (suc n) (capacity (suc n)) (capacity (suc n) == suc n) (omega arith) refl
      (capacity-Fits n)

-- With a history that is no power of two, there is room.
pub is_full-other : (n : ℕ) → 0 < n → ((k : ℕ) → n ≢ 2 ^ k) → is_full n ≡ false
unfolding is_full
is_full-other zero h other = absurd (omega arith)
is_full-other (suc n) h other = elim (Bool-cases (capacity (suc n) == suc n)) [
  | inr room ↦ room
  | inl full ↦
      let f = capacity-Fits n in
      absurd (other f.exponent (sym ((==_iff (capacity (suc n)) (suc n)).0 full) ∙ f.power))
]

same_power : (j k : ℕ) → 2 ^ k ≤ 2 ^ j → 2 ^ j < 2 * 2 ^ k → 2 ^ j ≡ 2 ^ k
same_power j k h l = elim (dec_lt k j) [
  | yes above ↦ absurd (
      omega (
        arith,
        pow-le-pow_right {n = 2} (omega arith) {i = suc k} {j = j} (omega (arith, above)),
        pow_suc k,
      ))
  | no below ↦
      omega (arith, pow-le-pow_right {n = 2} (omega arith) {i = j} {j = k} (omega (arith, below)))
]

power_is_full : (k n : ℕ) → n ≡ 2 ^ k → 0 < n → is_full n ≡ true
unfolding is_full
power_is_full k zero e h = absurd (omega arith)
power_is_full k (suc n) e h =
    let f = capacity-Fits n in
    let same : 2 ^ f.exponent ≡ 2 ^ k =
      same_power f.exponent k (omega (arith, f.enough, f.power))
        (omega (arith, f.tight, f.power)) in
    (==_iff (capacity (suc n)) (suc n)).1 (f.power ∙ same ∙ sym e)

-- Where their number is a power of two, there is none.
pub is_full-power : (k n : ℕ) → n ≡ 2 ^ k → is_full n ≡ true
is_full-power k n e =
    power_is_full k n e
      (omega (arith, pow-le-pow_right {n = 2} (omega arith) {i = 0} {j = k} (omega arith)))
