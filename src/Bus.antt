-- ===== src/Bus.antt =====
-- src/shelfwise_backend/event_bus.py, class InMemoryEventBus, over any type of wire events. The
-- lock makes each method one step. A message id `mem-N` is kept as the number N.
mod Tests
pub mod Protocol
pub mod Accounts
pub mod Calls
pub mod Conservation
pub mod Tenants
use shelfwise.Prelude.{
  ℕ, zero, suc, ◌+◌, String, Bool, true, false, not, map, Option, none, some, List, [], ◌∷◌, ◌++◌,
  length, keep_if, nat_key, text_key, ◌==◌, leb, max, if◌then◌else◌, or_else, Dict, lookup, insert,
  remove,
}
use Prim.Native.String
use mathlib.Core.List.{reverse}
use text.Mathlib.Text.{starts_with}
use shelfwise.Prelude.Text.{strip, or_text, text_leb, show}
use shelfwise.Prelude.Sort.{sort}

-- `stream_name`
unfoldable pub stream_name : String → String
stream_name tenant_id = String.◌++◌ "shelfwise:events:" (or_text (strip tenant_id) "default")

-- `f"mem-{n}"`
abbrev pub id_text : ℕ → String
id_text n = String.◌++◌ "mem-" (show n)

pub record Message (E : Type 0) : Type 0 where
  pub message_id : ℕ
  pub stream : String
  pub event : E

-- `_acked` holds the stream and the id of what its texts join.
pub record Bus (E : Type 0) : Type 0 where
  pub max_retries : ℕ
  pub messages : List (Message E)
  pub pending : List (Message E)
  pub acked : List (String × ℕ)
  pub dead_letter : List (Message E)
  pub delivery_counts : Dict ℕ ℕ

module _ {E : Type 0} where
  abbrev pub init : ℕ → Bus E
  init max_retries = record {
    max_retries = max 1 max_retries;
    messages = [];
    pending = [];
    acked = [];
    dead_letter = [];
    delivery_counts = [];
  }

  -- The message of the next number.
  abbrev pub next_message : String → E → Bus E → Message E
  next_message tenant_id event b = record {
    message_id = length b.messages + 1;
    stream = stream_name tenant_id;
    event = event;
  }

  unfoldable pub publish : String → E → Bus E → ℕ × Bus E
  publish tenant_id event b =
      let message = next_message tenant_id event b in
      (
        message.message_id,
        record b {
          messages = b.messages ++ message ∷ [];
          pending = b.pending ++ message ∷ [];
          delivery_counts = insert message.message_id 0 b.delivery_counts;
        },
      )

  -- `stream is None or message["stream"] == stream`
  abbrev pub wants : Option String → Message E → Bool
  wants none m = true
  wants (some s) m = m.stream == s

  abbrev pub keep_head :
      Message E → Option (Message E × List (Message E)) → Option (Message E × List (Message E))
  keep_head m none = none
  keep_head m (some (found, rest)) = some (found, m ∷ rest)

  -- The first pending message that is wanted, and the others.
  unfoldable pub take_first :
      Option String → List (Message E) → Option (Message E × List (Message E))
  take_first stream [] = none
  take_first stream (m ∷ ms) =
      let later = keep_head m (take_first stream ms) in
      if wants stream m then some (m, ms) else later

  deliver : Option (Message E × List (Message E)) → Bus E → Option (Message E) × Bus E
  deliver none b = (none, b)
  deliver (some (found, rest)) b = (
    some found,
    record b {
      pending = rest;
      delivery_counts =
          insert found.message_id (or_else (lookup found.message_id b.delivery_counts) 0 + 1)
            b.delivery_counts;
    },
  )

  unfoldable pub consume_one : Option String → Bus E → Option (Message E) × Bus E
  unfolding deliver
  consume_one stream b = deliver (take_first stream b.pending) b

  unfoldable pub ack : String → ℕ → Bus E → Bus E
  ack stream message_id b = record b {
    acked = b.acked ++ (stream, message_id) ∷ [];
    delivery_counts = remove message_id b.delivery_counts;
  }

  -- `next((item for item in self._messages if item["message_id"] == message_id), None)`
  pub source_of : ℕ → List (Message E) → Option (Message E)
  source_of n [] = none
  source_of n (m ∷ ms) = if m.message_id == n then some m else source_of n ms

  nack_found : ℕ → Option (Message E) → Bus E → Bool × Bus E
  nack_found message_id none b = (false, b)
  nack_found message_id (some source) b =
      if leb b.max_retries (or_else (lookup message_id b.delivery_counts) 1)
      then (
        true,
        record b {
          dead_letter = b.dead_letter ++ source ∷ [];
          delivery_counts = remove message_id b.delivery_counts;
        },
      )
      else (false, record b { pending = b.pending ++ source ∷ [] })

  unfoldable pub nack : ℕ → Bus E → Bool × Bus E
  unfolding nack_found
  nack message_id b = nack_found message_id (source_of message_id b.messages) b

  -- The in-memory bus tracks no idle consumers.
  abbrev pub reclaim_stale : Bus E → ℕ × Bus E
  reclaim_stale b = (0, b)

  -- `list`
  unfoldable pub all : Bus E → List (Message E)
  all b = reverse b.messages

  abbrev pub clear : Bus E → Bus E
  clear b = record b {
    messages = [];
    pending = [];
    acked = [];
    dead_letter = [];
    delivery_counts = [];
  }

-- What `stats` returns.
pub record Stats : Type 0 where
  pub messages_total : ℕ
  pub pending_messages : ℕ
  pub acked_messages : ℕ
  pub dead_letter_messages : ℕ
  pub streams : List String

-- The text that `ack` appends.
abbrev pub acked_text : String × ℕ → String
acked_text (stream, n) = String.◌++◌ stream (String.◌++◌ ":" (id_text n))

-- `stream is None or str(item).startswith(f"{stream}:")`
abbrev pub acked_under : Option String → String × ℕ → Bool
acked_under none item = true
acked_under (some s) item = starts_with (acked_text item) (String.◌++◌ s ":")

-- The stream that `stats` asks for; an empty tenant is no filter.
abbrev pub stats_stream : Option String → Option String
stats_stream none = none
stats_stream (some tenant_id) = if tenant_id == "" then none else some (stream_name tenant_id)

-- The elements of a `set` of texts.
pub distinct : List String → List String
distinct [] = []
distinct (s ∷ ss) = s ∷ keep_if (λ t. not (t == s)) (distinct ss)

unfoldable pub stats : {E : Type 0} → Option String → Bus E → Stats
stats tenant_id b =
    let stream = stats_stream tenant_id in
    let messages = keep_if (wants stream) b.messages in
    record {
      messages_total = length messages;
      pending_messages = length (keep_if (wants stream) b.pending);
      acked_messages = length (keep_if (acked_under stream) b.acked);
      dead_letter_messages = length (keep_if (wants stream) b.dead_letter);
      streams = sort text_leb (distinct (map (λ m. m.stream) messages));
    }
