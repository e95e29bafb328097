-- ===== src/NativeHost/Framed.antt =====
-- src/native_host/main_host.c: a message that is sent and read.
use cdm.Prelude.{
  ◌≤◌, ◌<◌, ◌≡◌, refl, true, false, some, ◌++◌, Bytes, length, arith, take-append_self,
  drop-append_self, leb, ltb, ◌==◌, beq_refl,
}
use cdm.Ipc.Wire.{u32_bytes, u32_of}
use cdm.Ipc.RoundTrip.{u32_of-u32_bytes}
use cdm.NativeHost.{native_max_message, frame, has_nul, native_read, native_send}

-- A text that is not empty, of at most 2 ^ 20 bytes and without a NUL, is sent, and reading it gives the
-- text and leaves what follows it.
pub native_read-native_send :
    (json rest : Bytes)
    → 0 < length json
    → length json ≤ native_max_message
    → has_nul json ≡ false
    → (bytes : Bytes) × (native_send json ≡ some bytes)
      × (native_read true (bytes ++ rest) ≡ (frame json, rest))
unfolding native_send native_read
native_read-native_send json rest some_bytes short plain =
    let fits : leb (length json) native_max_message ≡ true = ground arith in
    let size : u32_of (u32_bytes (length json)) ≡ length json =
      u32_of-u32_bytes (length json) (omega arith) in
    let nonzero : (length json == 0) ≡ false = ground arith in
    let not_long : ltb native_max_message (length json) ≡ false = ground arith in
    let bytes : Bytes = u32_bytes (length json) ++ json in
    (
      bytes,
      rw fits refl,
      rw
          (
            size,
            nonzero,
            not_long,
            take-append_self json rest,
            drop-append_self json rest,
            beq_refl (length json),
            plain,
          )
          refl,
    )
