-- ===== src/Transport/Capped.antt =====
-- The bounded read of a reply.
use image_adapter.Base.{
  ℕ, ◌+◌, ◌≤◌, ◌<◌, ◌≡◌, refl, sym, ◌∙◌, ◌⊎◌, inl, inr, Option, none, some, [], ◌++◌, arith, ltb,
  length, length-append, Bool-cases,
}
use mathlib.Core.List.{append_assoc, append-nil}
use image_adapter.Value.{Bytes}
use image_adapter.Transport.{
  Stream, done, chunk, stalled, broken, Reading, read, too_large, timed_out, lost, read_chunks,
  read_capped,
}

-- the bytes that a stream delivers before it ends or fails
abbrev pub delivered : Stream → Bytes
delivered done = []
delivered (chunk b rest) = b ++ delivered rest
delivered stalled = []
delivered broken = []

-- how a stream ends
abbrev pub ending : Stream → Bytes → Reading
ending done got = read got
ending (chunk b rest) got = ending rest got
ending stalled got = timed_out
ending broken got = lost

read_chunks_lem :
    (limit total : ℕ) (got : Bytes) (stream : Stream)
    → total ≡ length got
    → total ≤ limit
    → ((length (got ++ delivered stream) ≤ limit)
        × (read_chunks limit total got stream ≡ ending stream (got ++ delivered stream)))
      ⊎ ((limit < length (got ++ delivered stream))
          × (read_chunks limit total got stream ≡ too_large))
unfolding read_chunks
read_chunks_lem limit total got done t h = inl (rw append-nil (omega arith), rw append-nil)
read_chunks_lem limit total got stalled t h = inl (rw append-nil (omega arith), refl)
read_chunks_lem limit total got broken t h = inl (rw append-nil (omega arith), refl)
read_chunks_lem limit total got (chunk b rest) t h =
    elim (Bool-cases (ltb limit (total + length b))) [
      | inl over ↦ inr (
        ground (arith, length-append got (b ++ delivered rest), length-append b (delivered rest)),
        rw over,
      )
      | inr fits ↦
          let ih =
            read_chunks_lem limit (total + length b) (got ++ b) rest
              (omega (arith, length-append got b)) (ground arith) in
          rw (fits, ← append_assoc got b (delivered rest)) ih
    ]

-- A reply with no declared length is read whole, as its chunks in order, if they stay within the
-- limit and the stream ends; it is a timeout or a loss if the stream stalls or breaks within the
-- limit; and it is refused as soon as the chunks pass the limit.
read_capped_undeclared :
    (limit : ℕ) (stream : Stream)
    → ((length (delivered stream) ≤ limit)
        × (read_capped none stream limit ≡ ending stream (delivered stream)))
      ⊎ ((limit < length (delivered stream)) × (read_capped none stream limit ≡ too_large))
unfolding read_capped
read_capped_undeclared limit stream = read_chunks_lem limit 0 [] stream refl (omega arith)

read_chunks_bound :
    (limit total : ℕ) (got out : Bytes) (stream : Stream)
    → total ≡ length got
    → total ≤ limit
    → read_chunks limit total got stream ≡ read out
    → length out ≤ limit
unfolding read_chunks
read_chunks_bound limit total got out done t h e = ground arith
read_chunks_bound limit total got out stalled t h e = absurd (cc)
read_chunks_bound limit total got out broken t h e = absurd (cc)
read_chunks_bound limit total got out (chunk b rest) t h e =
    elim (Bool-cases (ltb limit (total + length b))) [
      | inl over ↦ absurd (ground arith)
      | inr fits ↦
          read_chunks_bound limit (total + length b) (got ++ b) out rest
            (omega (arith, length-append got b)) (ground arith) (rw fits at e)
    ]

-- Whatever length a reply declares, what is read of it is within the limit.
pub read_capped_bound :
    (declared : Option ℕ) (stream : Stream) (limit : ℕ) (out : Bytes)
    → read_capped declared stream limit ≡ read out
    → length out ≤ limit
unfolding read_capped
read_capped_bound none stream limit out e =
    read_chunks_bound limit 0 [] out stream refl (omega arith) e
read_capped_bound (some n) stream limit out e = elim (Bool-cases (ltb limit n)) [
  | inl over ↦ absurd (ground arith)
  | inr fits ↦ read_chunks_bound limit 0 [] out stream refl (omega arith) (rw fits at e)
]

ending-read : (stream : Stream) (got out : Bytes) → ending stream got ≡ read out → out ≡ got
ending-read done got out e = cc
ending-read (chunk b rest) got out e = ending-read rest got out e
ending-read stalled got out e = absurd (cc)
ending-read broken got out e = absurd (cc)

undeclared_delivered :
    (stream : Stream) (limit : ℕ) (out : Bytes)
    → read_capped none stream limit ≡ read out
    → out ≡ delivered stream
undeclared_delivered stream limit out e = elim (read_capped_undeclared limit stream) [
  | inl (fits, reads) ↦ ending-read stream (delivered stream) out (sym reads ∙ e)
  | inr (over, refuses) ↦ absurd (cc (sym refuses ∙ e))
]

-- What is read of a reply is what its stream delivers.
pub read_capped-delivered :
    (declared : Option ℕ) (stream : Stream) (limit : ℕ) (out : Bytes)
    → read_capped declared stream limit ≡ read out
    → out ≡ delivered stream
unfolding read_capped
read_capped-delivered none stream limit out e = undeclared_delivered stream limit out e
read_capped-delivered (some n) stream limit out e = elim (Bool-cases (ltb limit n)) [
  | inl over ↦ absurd (cc (rw over at e))
  | inr fits ↦ undeclared_delivered stream limit out (rw fits at e)
]
