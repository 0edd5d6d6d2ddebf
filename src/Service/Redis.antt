-- ===== src/Service/Redis.antt =====
-- Redis as api/app/core/redis_streams.py and the workers use it: streams with a consumer group, and
-- one sorted set. A call gives `none` where the client raises.
use replay_forge.Base.{
  ℕ, ◌≡◌, Bool, false, List, [], ◌∷◌, ◌++◌, Option, none, some, ◌==◌, if◌then◌else◌,
}
use replay_forge.Models.{Reason}

-- STREAM_INCOMING, STREAM_RETRY and STREAM_DLQ.
pub data Stream : Type 0 where
  incoming retry deadletter : Stream

-- The fields of an entry that the code reads or writes. A missing or an empty `event_id` is `none`.
pub record Message : Type 0 where
  pub event_id : Option ℕ
  pub reason : Option Reason

pub record Redis : Type 1 where
  pub Server : Type 0
  -- What a stream holds, and what the group has been given and has not acknowledged.
  pub entries : Stream → Server → List Message
  pub is_pending : Stream → ℕ → Server → Bool
  -- The score of a member of the sorted set RETRY_ZSET.
  pub score : ℕ → Server → Option ℕ
  -- `xadd(stream, fields, maxlen=100_000, approximate=True)`
  pub xadd : Stream → Message → Server → Option Server
  -- `xack(stream, GROUP, msg_id)`
  pub xack : Stream → ℕ → Server → Option Server
  -- `zadd(RETRY_ZSET, {member: score})`
  pub zadd : ℕ → ℕ → Server → Option Server
  -- `zrem(RETRY_ZSET, member)`, with whether it removed anything
  pub zrem : ℕ → Server → Option (Bool × Server)
  -- `zrangebyscore(RETRY_ZSET, 0, max)`
  pub zrangebyscore : ℕ → Server → Option (List ℕ)
  -- The new entry comes last, and trimming drops older ones only.
  pub xadd-entries :
      (s : Stream) (m : Message) (r : Server) {r' : Server}
      → xadd s m r ≡ some r'
      → (kept : List Message) × (entries s r' ≡ kept ++ m ∷ [])
  pub xadd-score :
      (s : Stream) (m : Message) (r : Server) {r' : Server}
      → xadd s m r ≡ some r'
      → (k : ℕ) → score k r' ≡ score k r
  pub xadd-is_pending :
      (s : Stream) (m : Message) (r : Server) {r' : Server}
      → xadd s m r ≡ some r'
      → (t : Stream) (id : ℕ) → is_pending t id r' ≡ is_pending t id r
  pub xack-is_pending :
      (s : Stream) (id : ℕ) (r : Server) {r' : Server}
      → xack s id r ≡ some r'
      → is_pending s id r' ≡ false
  pub xack-score :
      (s : Stream) (id : ℕ) (r : Server) {r' : Server}
      → xack s id r ≡ some r'
      → (k : ℕ) → score k r' ≡ score k r
  pub zadd-score :
      (m x : ℕ) (r : Server) {r' : Server}
      → zadd m x r ≡ some r'
      → (k : ℕ) → score k r' ≡ (if m == k then some x else score k r)
  pub zrem-score :
      (m : ℕ) (r : Server) {b : Bool} {r' : Server}
      → zrem m r ≡ some (b, r')
      → (k : ℕ) → score k r' ≡ (if m == k then none else score k r)
  pub zrem-entries :
      (m : ℕ) (r : Server) {b : Bool} {r' : Server}
      → zrem m r ≡ some (b, r')
      → (s : Stream) → entries s r' ≡ entries s r
