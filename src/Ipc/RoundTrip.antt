-- ===== src/Ipc/RoundTrip.antt =====
-- src/platform/ipc_socket.c: strings and whole requests come back as they were sent.
use cdm.Prelude.{
  ℕ, zero, suc, ◌+◌, ◌-◌, ◌≤◌, ◌<◌, ◌≡◌, refl, ap, ◌∙◌, true, Option, none, some, List, ◌++◌, Bytes,
  Bool-cases, length, length-drop, length-append, take, drop, drop-drop, take-append_self,
  drop-append_self, ltb, leb, if◌then◌else◌, arith, inl, inr, u32, u32_mod,
}
use cdm.Ipc.Wire.{
  Event, ipc_read_exact, u32_bytes, u32_of, write_string, drain_loop, read_excess, read_body,
  read_string,
}
use cdm.Ipc.Stream.{arrived, ipc_read_exact-Reads}

pub u32_of-u32_bytes : (n : ℕ) → n < u32_mod → u32_of (u32_bytes n) ≡ n
unfolding u32_of
u32_of-u32_bytes n h = omega arith

-- A read of the first `xs` of `xs ++ rest`.
ipc_read_exact-append :
    (xs rest : Bytes) (es : List Event)
    → arrived es ≡ xs ++ rest
    → ((ipc_read_exact (length xs) es).0 ≡ some xs)
      × (arrived (ipc_read_exact (length xs) es).1 ≡ rest)
ipc_read_exact-append xs rest es h =
    let size : length (arrived es) ≡ length xs + length rest =
      ap length h ∙ length-append xs rest in
    let r = ipc_read_exact-Reads (length xs) es (omega arith) in
    (
      r.0 ∙ ap some (ap (take (length xs)) h ∙ take-append_self xs rest),
      r.1 ∙ ap (drop (length xs)) h ∙ drop-append_self xs rest,
    )

drain_loop-Drains :
    (fuel n : ℕ) (es : List Event)
    → n ≤ fuel
    → n ≤ length (arrived es)
    → ((drain_loop fuel n es).0 ≡ true) × (arrived (drain_loop fuel n es).1 ≡ drop n (arrived es))
unfolding drain_loop
drain_loop-Drains zero zero es h k = (refl, refl)
drain_loop-Drains zero (suc n) es h k = absurd (omega arith)
drain_loop-Drains (suc fuel) zero es h k = (refl, refl)
drain_loop-Drains (suc fuel) (suc n) es h k =
    let size : ℕ = if ltb (suc n) 256 then suc n else 256 in
    let small : size ≤ suc n = ground arith in
    let some_bytes : 1 ≤ size = ground arith in
    let r = ipc_read_exact-Reads size es (omega arith) in
    let left : length (arrived (ipc_read_exact size es).1) ≡ length (arrived es) - size =
      ap length r.1 ∙ length-drop size (arrived es) in
    let ih =
      drain_loop-Drains fuel (suc n - size) (ipc_read_exact size es).1 (omega arith)
        (omega arith) in
    rw (drain_loop, r.0)
      (ih.0, ih.1 ∙ ap (drop (suc n - size)) r.1 ∙ drop-drop size (suc n) (arrived es) small)

-- A field of `len` bytes at the head of what arrives, as `read_string` answers it.
abbrev pub field_answer : Bytes → ℕ → Option Bytes
field_answer s max_len = if leb max_len (length s) then none else some s

read_body-append :
    (s rest : Bytes) (max_len : ℕ) (es : List Event)
    → 0 < max_len
    → arrived es ≡ s ++ rest
    → ((read_body (length s) max_len es).0 ≡ field_answer s max_len)
      × (arrived (read_body (length s) max_len es).1 ≡ rest)
unfolding read_body read_excess
read_body-append s rest max_len es h e =
    let size : length (arrived es) ≡ length s + length rest = ap length e ∙ length-append s rest in
    elim (Bool-cases (leb max_len (length s))) [
      | inl big ↦
          let le : max_len - 1 ≤ length s = ground arith in
          let r = ipc_read_exact-Reads (max_len - 1) es (omega arith) in
          let left : length (arrived (ipc_read_exact (max_len - 1) es).1)
              ≡ length (arrived es) - (max_len - 1) =
            ap length r.1 ∙ length-drop (max_len - 1) (arrived es) in
          let d =
            drain_loop-Drains (length s - (max_len - 1)) (length s - (max_len - 1))
              (ipc_read_exact (max_len - 1) es).1 (omega arith) (omega arith) in
          rw (read_body, big, r.0, big)
            (
              refl,
              d.1
                  ∙ ap (drop (length s - (max_len - 1))) r.1
                  ∙ drop-drop (max_len - 1) (length s) (arrived es) le
                  ∙ ap (drop (length s)) e
                  ∙ drop-append_self s rest,
            )
      | inr fits ↦
          let r = ipc_read_exact-append s rest es e in rw (read_body, fits, r.0, fits) (refl, r.1)
    ]

-- A string that was sent at the head of what arrives is what `read_string` returns if it fits in the
-- buffer with its NUL, and is rejected otherwise; either way, and however the bytes are divided into
-- reads, what is left on the connection is exactly what was sent after the string.
pub read_string-write_string :
    (s rest : Bytes) (max_len : ℕ) (es : List Event)
    → length s < u32_mod
    → 0 < max_len
    → arrived es ≡ write_string s ++ rest
    → ((read_string max_len es).0 ≡ (if ltb (length s) max_len then some s else none))
      × (arrived (read_string max_len es).1 ≡ rest)
unfolding read_string write_string
read_string-write_string s rest zero es h k e = absurd (omega arith)
read_string-write_string s rest (suc m) es h k e =
    let r = ipc_read_exact-append (u32_bytes (u32 (length s))) (s ++ rest) es e in
    let b = read_body-append s rest (suc m) (ipc_read_exact 4 es).1 k r.1 in
    let len : u32_of (u32_bytes (u32 (length s))) ≡ length s =
      let small : u32 (length s) ≡ length s = omega arith in
      rw small (u32_of-u32_bytes (length s) h) in
    let same : (if ltb (length s) (suc m) then some s else none) ≡ field_answer s (suc m) =
      ground arith in
    rw (same, read_string, r.0, len) b
