-- ===== src/Command/Sizes.antt =====
-- The commands that `try_from` of command.rs makes of a request of the decoder are written as requests
-- that the decoder takes.
use simple_kv.Prelude.{ℕ, inl, inr, sym, subst, List, [], ◌∷◌, drop, length-drop, All, arith}
use simple_kv.Util.Bounds.{length-to_string}
use simple_kv.Util.{Bytes}
use simple_kv.Request.RoundTrip.{IsRequest}
use simple_kv.Request.Filling.{IsShort}
use simple_kv.Command.{Command, get, set, mget, mset, del, getall, expire_at, ttl, name, parts}
use simple_kv.Command.RoundTrip.{IsCommand, is_expire_at}
use simple_kv.Command.Parse.{Keeps}

name-IsShort : (c : Command) → IsShort (name c)
unfolding name
name-IsShort (get key) = omega arith
name-IsShort (set key value) = omega arith
name-IsShort (mget keys) = omega arith
name-IsShort (mset entries) = omega arith
name-IsShort (del keys) = omega arith
name-IsShort getall = omega arith
name-IsShort (expire_at key timestamp) = omega arith
name-IsShort (ttl key) = omega arith

All-drop : (cstrs : List Bytes) → All IsShort cstrs → All IsShort (drop 1 cstrs)
All-drop [] a = tt
All-drop (c ∷ cstrs) (s, a) = a

expire_at-IsRequest :
    (key : Bytes) (timestamp : ℕ)
    → IsCommand (expire_at key timestamp)
    → IsShort key
    → IsRequest (record { cstrs = parts (expire_at key timestamp) })
unfolding parts name
expire_at-IsRequest key timestamp (is_expire_at small) s = record {
  count = omega arith;
  sizes = (omega arith, (s, (omega (arith, length-to_string timestamp small), tt)));
}

-- The parts of a command that keeps the arguments of a request within the limits are within them.
pub parts-IsRequest :
    (cstrs : List Bytes) (c : Command)
    → IsRequest (record { cstrs = cstrs })
    → IsCommand c
    → Keeps (drop 1 cstrs) c
    → IsRequest (record { cstrs = parts c })
parts-IsRequest cstrs c v made (inl p) =
    subst (λ t. IsRequest (record { cstrs = t })) (sym p)
      (record {
        count = omega (arith, v.count, length-drop 1 cstrs);
        sizes = (name-IsShort c, All-drop cstrs v.sizes);
      })
parts-IsRequest cstrs c v made (inr (key, seconds, timestamp, p, q)) =
    let (short, _) = subst (All IsShort) p (All-drop cstrs v.sizes) in
    subst (λ t. IsRequest (record { cstrs = parts t })) (sym q)
      (expire_at-IsRequest key timestamp (subst IsCommand q made) short)
