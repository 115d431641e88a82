-- ===== src/Tseal/Seal/Policy.antt =====
-- The tests of `seal_data_ex` and `mac_aadata_ex` on the key policy and the attribute mask, in
-- numbers.
use sgx_sdk_rs.Base.{
  ℕ, ◌*◌, ◌/◌, ◌%◌, ◌<◌, ◌^◌, ◌≡◌, ◌≢◌, ◌↔◌, refl, arith, Bool, true, false, not, ◌||◌, ltb, ◌==◌,
  bit_and,
}
use sgx_sdk_rs.Base.Bits.{all_below, all_below_sound, bit_and_step, bit_and-one}
use sgx_sdk_rs.Types.{Attributes}
use sgx_sdk_rs.Tseal.Seal.{
  Platform, key_policy_refused, attribute_mask_refused, default_key_policy, default_attribute_mask,
}

-- What the test on the policy amounts to.
policy_range : ℕ → Bool
policy_range k = not (ltb k 64) || k % 4 == 0

same : Bool → Bool → Bool
same true b = b
same false b = not b

policy_table : all_below 65536 (λ k. same (key_policy_refused k) (policy_range k)) ≡ true
unfolding all_below key_policy_refused policy_range same
policy_table = refl

-- A 16-bit policy passes exactly if it has no bit above the six known ones and at least one of
-- the two lowest, MRENCLAVE and MRSIGNER.
pub key_policy_refused_iff :
    (k : ℕ) → k < 2 ^ 16 → (key_policy_refused k ≡ false) ↔ ((k < 64) × (k % 4 ≢ 0))
unfolding policy_range same
key_policy_refused_iff k h = ground (
  arith,
  all_below_sound 65536 (λ (j : ℕ). same (key_policy_refused j) (policy_range j)) k policy_table h,
)

bit_and-two : (a : ℕ) → bit_and a 2 ≡ a / 2 % 2 * 2
bit_and-two a = omega (arith, bit_and_step a 2, bit_and-one (a / 2))

-- An attribute mask passes exactly if it has both of its two lowest bits, INITTED and DEBUG.
pub attribute_mask_refused_iff :
    (mask : Attributes) → (attribute_mask_refused mask ≡ false) ↔ (mask.flags % 4 ≡ 3)
unfolding attribute_mask_refused
attribute_mask_refused_iff mask = ground (arith, bit_and-one mask.flags, bit_and-two mask.flags)

-- The defaults of `seal_data` and `mac_aadata` always pass, whether the enclave uses KSS or not.
pub defaults_pass :
    (p : Platform)
    → (key_policy_refused (default_key_policy p) ≡ false)
      × (attribute_mask_refused (default_attribute_mask p) ≡ false)
unfolding default_key_policy key_policy_refused attribute_mask_refused
defaults_pass p = (ground arith, refl)

-- A 16-bit policy passes exactly if it has no bit above the six known ones and at least one of the two
-- lowest, MRENCLAVE and MRSIGNER; an attribute mask passes exactly if it has both of its two lowest
-- bits, INITTED and DEBUG. The defaults of `seal_data` and `mac_aadata` always pass, whether the enclave
-- uses KSS or not.
policies-refused :
    (p : Platform) (k : ℕ) (mask : Attributes)
    → k < 2 ^ 16
    → ((key_policy_refused k ≡ false) ↔ ((k < 64) × (k % 4 ≢ 0)))
      × ((attribute_mask_refused mask ≡ false) ↔ (mask.flags % 4 ≡ 3))
      × (key_policy_refused (default_key_policy p) ≡ false)
      × (attribute_mask_refused (default_attribute_mask p) ≡ false)
policies-refused p k mask small = (
  key_policy_refused_iff k small,
  attribute_mask_refused_iff mask,
  (defaults_pass p).0,
  (defaults_pass p).1,
)
