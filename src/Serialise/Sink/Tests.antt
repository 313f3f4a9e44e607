-- ===== src/Serialise/Sink/Tests.antt =====
-- Runs of `BufferedSink` and `HashSink`, where the digest of some bytes is those bytes.
use archinix.Base.{◌%◌, ◌^◌, ◌≡◌, refl, [], ◌∷◌, length, codes, ok}
use archinix.Serialise.Sink.{
  BufferedSink, empty_sink, flush, write, write_loop, write_all, hash_buf_size, joined, finish,
}
use archinix.Serialise.Sink.Order.{finish-write_all}

finish-write_all_example :
    (s : BufferedSink) × (write_all (codes "ab" ∷ codes "c" ∷ []) (empty_sink hash_buf_size) ≡ ok s)
    × (finish (λ bytes. bytes) s ≡ (
      joined (codes "ab" ∷ codes "c" ∷ []),
      length (joined (codes "ab" ∷ codes "c" ∷ [])) % 2 ^ 64,
    ))
finish-write_all_example = finish-write_all (λ bytes. bytes) (codes "ab" ∷ codes "c" ∷ [])

-- Three bytes are kept, two more pass the buffer by.
bypassed :
    write_all (codes "abc" ∷ codes "de" ∷ []) (empty_sink 4)
    ≡ ok (record { buf_size = 4; buffer = []; chunks = codes "abc" ∷ codes "de" ∷ [] })
unfolding write_all write_loop write flush
bypassed = refl
