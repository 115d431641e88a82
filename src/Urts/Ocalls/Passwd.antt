-- ===== src/Urts/Ocalls/Passwd.antt =====
-- sgx-urts/src/env.rs: a user's entry leaves with places in the caller's buffer for its pointers, since
-- the enclave has the buffer at another address.
use sgx_sdk_rs.Base.{
  ℕ, ◌+◌, ◌-◌, ◌^◌, ◌≤◌, ◌<◌, ◌≡◌, ◌≢◌, ◌⊎◌, inl, inr, refl, arith, Bool-cases, false, ◌==◌, ltb,
  if◌then◌else◌,
}

pub record Passwd : Type 0 where
  pub pw_name : ℕ
  pub pw_passwd : ℕ
  pub pw_uid : ℕ
  pub pw_gid : ℕ
  pub pw_gecos : ℕ
  pub pw_dir : ℕ
  pub pw_shell : ℕ

-- The call with its value, and the memory in which it leaves the entry.
pub record PasswdLib (W : Type 0) : Type 0 where
  pub getpwuid_r : ℕ → ℕ → ℕ → ℕ → ℕ → W → ℕ × W
  pub read_word : ℕ → W → ℕ
  pub read_passwd : ℕ → W → Passwd
  pub write_passwd : ℕ → Passwd → W → W

-- `-1_isize as usize`
abbrev pub no_place : ℕ
no_place = 2 ^ 64 - 1

-- `checked_sub` of the buffer's address, where the pointer is not null.
unfoldable pub place_in : ℕ → ℕ → ℕ
place_in buf p = if p == 0 then no_place else if ltb p buf then no_place else p - buf

unfoldable pub with_places : ℕ → Passwd → Passwd
unfolding place_in
with_places buf e = record e {
  pw_name = place_in buf e.pw_name;
  pw_passwd = place_in buf e.pw_passwd;
  pw_gecos = place_in buf e.pw_gecos;
  pw_dir = place_in buf e.pw_dir;
  pw_shell = place_in buf e.pw_shell;
}

-- A string's pointer: null, or into the buffer.
abbrev pub InBuffer : ℕ → ℕ → ℕ → Type 0
InBuffer buf buflen p = (p ≡ 0) ⊎ ((buf ≤ p) × (p < buf + buflen))

-- The place tells the pointer: none for null, and else one in the buffer, at its offset.
abbrev pub Tells : ℕ → ℕ → ℕ → ℕ → Type 0
Tells buf buflen p place =
    ((p ≡ 0) × (place ≡ no_place)) ⊎ ((p ≢ 0) × (place < buflen) × (buf + place ≡ p))

place_in-Tells :
    (buf buflen p : ℕ)
    → 0 < buf
    → buf + buflen ≤ 2 ^ 64
    → InBuffer buf buflen p
    → Tells buf buflen p (place_in buf p)
unfolding place_in
place_in-Tells buf buflen p filled fits (inl null) = inl (null, rw null refl)
place_in-Tells buf buflen p filled fits (inr (lo, hi)) =
    let there : (p == 0) ≡ false = ground (arith, filled, lo) in
    let above : ltb p buf ≡ false = ground (arith, lo) in
    inr (
      omega (arith, filled, lo),
      rw (there, above) (omega (arith, lo, hi)),
      rw (there, above) (omega (arith, lo)),
    )

abbrev pub StringsIn : ℕ → ℕ → Passwd → Type 0
StringsIn buf buflen e =
    InBuffer buf buflen e.pw_name
    × InBuffer buf buflen e.pw_passwd
    × InBuffer buf buflen e.pw_gecos
    × InBuffer buf buflen e.pw_dir
    × InBuffer buf buflen e.pw_shell

abbrev pub StringsTold : ℕ → ℕ → Passwd → Passwd → Type 0
StringsTold buf buflen e told =
    Tells buf buflen e.pw_name told.pw_name
    × Tells buf buflen e.pw_passwd told.pw_passwd
    × Tells buf buflen e.pw_gecos told.pw_gecos
    × Tells buf buflen e.pw_dir told.pw_dir
    × Tells buf buflen e.pw_shell told.pw_shell
    × (told.pw_uid ≡ e.pw_uid)
    × (told.pw_gid ≡ e.pw_gid)

with_places-Told :
    (buf buflen : ℕ) (e : Passwd)
    → 0 < buf
    → buf + buflen ≤ 2 ^ 64
    → StringsIn buf buflen e
    → StringsTold buf buflen e (with_places buf e)
unfolding with_places
with_places-Told buf buflen e filled fits (name, passwd, gecos, dir, shell) =
    let tells = place_in-Tells buf buflen in
    (
      tells e.pw_name filled fits name,
      tells e.pw_passwd filled fits passwd,
      tells e.pw_gecos filled fits gecos,
      tells e.pw_dir filled fits dir,
      tells e.pw_shell filled fits shell,
      refl,
      refl,
    )

module _ {W : Type 0} (lib : PasswdLib W) where
  unfoldable pub u_getpwuid_r_ocall : ℕ → ℕ → ℕ → ℕ → ℕ → W → ℕ × W
  unfolding with_places
  u_getpwuid_r_ocall uid pwd buf buflen passwd_result w =
      let (ret, w') = lib.getpwuid_r uid pwd buf buflen passwd_result w in
      let told = lib.write_passwd pwd (with_places buf (lib.read_passwd pwd w')) w' in
      if ret == 0
      then (if lib.read_word passwd_result w' == 0 then (ret, w') else (ret, told))
      else (ret, w')

  -- Let the C library, where it finds the user's entry, leave each of its strings null or in the buffer
  -- that it was given, which lies in the address space and not at null. Then the value is that of the
  -- C library; without an entry the memory is as it left it; and with one, the entry alone is written
  -- again, with the same identities and, for each string, the offset that gives its pointer back, which
  -- is inside the buffer, or 2^64 - 1 exactly where the pointer is null.
  pub u_getpwuid_r_ocall_lem :
      (uid pwd buf buflen passwd_result : ℕ) (w : W)
      → 0 < buf
      → buf + buflen ≤ 2 ^ 64
      → ((lib.getpwuid_r uid pwd buf buflen passwd_result w).0 ≡ 0
          → lib.read_word passwd_result (lib.getpwuid_r uid pwd buf buflen passwd_result w).1 ≢ 0
          → StringsIn buf buflen
              (lib.read_passwd pwd (lib.getpwuid_r uid pwd buf buflen passwd_result w).1))
      → let (ret, w') = lib.getpwuid_r uid pwd buf buflen passwd_result w in
        ((u_getpwuid_r_ocall uid pwd buf buflen passwd_result w ≡ (ret, w'))
          × ((ret ≢ 0) ⊎ (lib.read_word passwd_result w' ≡ 0)))
        ⊎ ((told : Passwd) × (u_getpwuid_r_ocall uid pwd buf buflen passwd_result w
              ≡ (ret, lib.write_passwd pwd told w'))
            × (ret ≡ 0)
            × (lib.read_word passwd_result w' ≢ 0)
            × StringsTold buf buflen (lib.read_passwd pwd w') told)
  unfolding u_getpwuid_r_ocall
  u_getpwuid_r_ocall_lem uid pwd buf buflen passwd_result w filled fits strings =
      let (ret, w') = lib.getpwuid_r uid pwd buf buflen passwd_result w in
      let result = lib.read_word passwd_result w' in
      elim (Bool-cases (ret == 0)) [
        | inr bad ↦ inl (rw (bad, u_getpwuid_r_ocall) refl, inl (ground (arith, bad)))
        | inl good ↦ elim (Bool-cases (result == 0)) [
          | inl absent ↦
              inl (rw (good, absent, u_getpwuid_r_ocall) refl, inr (ground (arith, absent)))
          | inr found ↦ inr (
            with_places buf (lib.read_passwd pwd w'),
            rw (good, found, u_getpwuid_r_ocall) refl,
            ground (arith, good),
            ground (arith, found),
            with_places-Told buf buflen (lib.read_passwd pwd w') filled fits
                (strings (ground (arith, good)) (ground (arith, found))),
          )
        ]
      ]
