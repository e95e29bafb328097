-- ===== src/Ipc/Stream.antt =====
-- src/platform/ipc_socket.c: what `ipc_read_exact` returns, for any division of the bytes into reads.
use cdm.Prelude.{
  ℕ, zero, suc, ◌+◌, ◌-◌, ◌≤◌, ◌<◌, ◌≡◌, refl, sym, ap, ◌∙◌, Option, none, some, List, [], ◌∷◌,
  ◌++◌, Bytes, Bool-cases, ltb→lt, length-drop, take-append_short, drop-append_short,
  take-append_long, drop-append_long, length-append, length, take, drop, ltb, arith, inl, inr,
}
use cdm.Ipc.Wire.{Event, chunk, interrupted, closed, failed, ipc_read_exact, prepend}

-- The bytes that reach the reader: those of every read before the end of the connection or an error.
abbrev pub arrived : List Event → Bytes
arrived [] = []
arrived (interrupted ∷ es) = arrived es
arrived (closed ∷ es) = []
arrived (failed ∷ es) = []
arrived (chunk [] ∷ es) = []
arrived (chunk (b ∷ bs) ∷ es) = b ∷ bs ++ arrived es

-- `r` holds the first `n` bytes of `bs`, and the connection still has the others.
abbrev pub Reads : ℕ → Bytes → Option Bytes × List Event → Type 0
Reads n bs r = (r.0 ≡ some (take n bs)) × (arrived r.1 ≡ drop n bs)

arrived-chunk :
    (bs : Bytes) (es : List Event) → 0 < length bs → arrived (chunk bs ∷ es) ≡ bs ++ arrived es
arrived-chunk [] es h = elim h [ ]
arrived-chunk (b ∷ bs) es h = refl

-- A read of bytes that arrive returns them, however they are divided and however often a signal
-- interrupts the read, and takes no byte more.
pub ipc_read_exact-Reads :
    (n : ℕ) (es : List Event) → n ≤ length (arrived es) → Reads n (arrived es) (ipc_read_exact n es)
unfolding ipc_read_exact
ipc_read_exact-Reads zero es h = (refl, refl)
ipc_read_exact-Reads (suc n) [] h = elim h [ ]
ipc_read_exact-Reads (suc n) (interrupted ∷ es) h = ipc_read_exact-Reads (suc n) es h
ipc_read_exact-Reads (suc n) (closed ∷ es) h = elim h [ ]
ipc_read_exact-Reads (suc n) (failed ∷ es) h = elim h [ ]
ipc_read_exact-Reads (suc n) (chunk [] ∷ es) h = elim h [ ]
ipc_read_exact-Reads (suc n) (chunk (b ∷ bs) ∷ es) h =
    let size : length (b ∷ bs ++ arrived es) ≡ length (b ∷ bs) + length (arrived es) =
      length-append (b ∷ bs) (arrived es) in
    elim (Bool-cases (ltb (suc n) (length (b ∷ bs)))) [
      | inl e ↦
          let short : suc n < length (b ∷ bs) = ltb→lt (suc n) (length (b ∷ bs)) e in
          let left : 0 < length (drop (suc n) (b ∷ bs)) =
            omega (arith, length-drop (suc n) (b ∷ bs)) in
          rw e (
            ap some (sym (take-append_short (suc n) (b ∷ bs) (arrived es) (omega arith))),
            arrived-chunk (drop (suc n) (b ∷ bs)) es left
                ∙ sym (drop-append_short (suc n) (b ∷ bs) (arrived es) (omega arith)),
          )
      | inr e ↦
          let long : length (b ∷ bs) ≤ suc n = ground arith in
          let ih = ipc_read_exact-Reads (suc n - length (b ∷ bs)) es (omega arith) in
          rw e (
            ap (prepend (b ∷ bs)) ih.0
                ∙ ap some (sym (take-append_long (suc n) (b ∷ bs) (arrived es) long)),
            ih.1 ∙ sym (drop-append_long (suc n) (b ∷ bs) (arrived es) long),
          )
    ]

-- When fewer bytes arrive the read fails.
pub ipc_read_exact-short :
    (n : ℕ) (es : List Event) → length (arrived es) < n → (ipc_read_exact n es).0 ≡ none
unfolding ipc_read_exact
ipc_read_exact-short zero es h = absurd (omega arith)
ipc_read_exact-short (suc n) [] h = refl
ipc_read_exact-short (suc n) (interrupted ∷ es) h = ipc_read_exact-short (suc n) es h
ipc_read_exact-short (suc n) (closed ∷ es) h = refl
ipc_read_exact-short (suc n) (failed ∷ es) h = refl
ipc_read_exact-short (suc n) (chunk [] ∷ es) h = refl
ipc_read_exact-short (suc n) (chunk (b ∷ bs) ∷ es) h =
    let size : length (b ∷ bs ++ arrived es) ≡ length (b ∷ bs) + length (arrived es) =
      length-append (b ∷ bs) (arrived es) in
    elim (Bool-cases (ltb (suc n) (length (b ∷ bs)))) [
      | inl e ↦ absurd (let short = ltb→lt (suc n) (length (b ∷ bs)) e in omega arith)
      | inr e ↦
          rw e (
            ap (prepend (b ∷ bs)) (ipc_read_exact-short (suc n - length (b ∷ bs)) es (omega arith)))
    ]
