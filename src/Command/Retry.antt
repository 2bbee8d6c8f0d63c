-- ===== src/Command/Retry.antt =====
-- src/command/command_retry.c: the cache of tickets with which a remote command runs once although
-- its request is repeated. A pointer into the cache is an index. The registry that runs a command,
-- `kfsw_command_invoke_id`, is a function of the arguments.
use kfsw_services.Common.{
  ℕ, suc, ◌+◌, Bool, true, false, not, ◌&&◌, ◌||◌, Option, none, some, List, [], ◌∷◌, leb, ltb,
  ◌==◌, if◌then◌else◌, get_elem?, set, take, list_eq,
}
use kfsw_services.Common.Codes.{Result, ok, err}
use kfsw_services.Event.{bytes_of}
use kfsw_services.Command.{
  Message, Arg, op_prepare, op_execute, max_args, max_payload_size, decode_args,
}

-- `struct kfsw_command_result`, with `enum kfsw_command_status` by its numbers.
pub record Outcome : Type 0 where
  pub status : ℕ
  pub detail : List ℕ

abbrev pub status_ok : ℕ
status_ok = 0

abbrev pub status_invalid : ℕ
status_invalid = 2

abbrev pub status_busy : ℕ
status_busy = 4

abbrev pub status_unavailable : ℕ
status_unavailable = 6

-- "ticket expired or unknown; outcome may be unknown".
abbrev unknown_ticket : List ℕ
unknown_ticket =
    116 ∷ 105 ∷ 99 ∷ 107 ∷ 101 ∷ 116 ∷ 32 ∷ 101 ∷ 120 ∷ 112 ∷ 105 ∷ 114 ∷ 101 ∷ 100 ∷ 32 ∷ 111 ∷ 114
    ∷ 32 ∷ 117 ∷ 110 ∷ 107 ∷ 110 ∷ 111 ∷ 119 ∷ 110 ∷ 59 ∷ 32 ∷ 111 ∷ 117 ∷ 116 ∷ 99 ∷ 111 ∷ 109
    ∷ 101 ∷ 32 ∷ 109 ∷ 97 ∷ 121 ∷ 32 ∷ 98 ∷ 101 ∷ 32 ∷ 117 ∷ 110 ∷ 107 ∷ 110 ∷ 111 ∷ 119 ∷ 110 ∷ []

-- `struct kfsw_command_ticket`; the payload is its first `size` bytes.
pub record Ticket : Type 0 where
  pub nonce : ℕ
  pub ticket : ℕ
  pub expires : ℕ
  pub source : ℕ
  pub command : ℕ
  pub request : ℕ
  pub size : ℕ
  pub count : ℕ
  pub complete : Bool
  pub payload : List ℕ
  pub result : Outcome

-- What a dispatch leaves: the cache, `*ticket`, `*result`, and how often it has called
-- `kfsw_command_invoke_id`.
pub record Reply : Type 0 where
  pub cache : List Ticket
  pub ticket : ℕ
  pub result : Outcome
  pub invocations : ℕ

-- `matches`.
unfoldable pub matches : Ticket → Message → Bool
matches e m =
    (e.command == m.command_id)
    && (e.request == m.request_id)
    && (e.size == m.payload_size)
    && (e.count == m.arg_count)
    && list_eq e.payload (take e.size (bytes_of m.payload))

-- The guard at the top of `kfsw_command_retry_dispatch`.
unfoldable pub is_malformed : Message → Bool
is_malformed m =
    not (m.version == 2)
    || (m.token == 0)
    || not (m.status == 0)
    || ltb max_payload_size m.payload_size
    || (not (m.opcode == op_prepare) && not (m.opcode == op_execute))

-- An entry that the loop takes for free.
abbrev pub is_free : ℕ → Ticket → Bool
is_free now t = (t.ticket == 0) || leb t.expires now

-- An entry that the request names.
abbrev pub is_named : ℕ → Message → Ticket → Bool
is_named source m t =
    (t.source == source)
    && (((m.opcode == op_prepare) && (t.nonce == m.token))
        || ((m.opcode == op_execute) && (t.ticket == m.token)))

-- The first free entry.
unfoldable pub free_entry : ℕ → List Ticket → Option ℕ
free_entry now [] = none
free_entry now (t ∷ ts) =
    let rest = free_entry now ts in
    if is_free now t then some 0 else elim rest [ none ↦ none | some i ↦ some (suc i) ]

-- The last entry that the request names.
unfoldable pub find_entry : ℕ → ℕ → Message → List Ticket → Option ℕ
find_entry now source m [] = none
find_entry now source m (t ∷ ts) =
    let rest = find_entry now source m ts in
    elim rest [
      | none ↦ if not (is_free now t) && is_named source m t then some 0 else none
      | some i ↦ some (suc i)
    ]

-- `collision`.
unfoldable pub collides : ℕ → ℕ → List Ticket → Bool
collides now new_ticket [] = false
collides now new_ticket (t ∷ ts) =
    let rest = collides now new_ticket ts in
    (not (is_free now t) && (t.ticket == new_ticket)) || rest

abbrev pub refused : List Ticket → Message → ℕ → Reply
refused cache m status = record {
  cache = cache;
  ticket = m.token;
  result = record { status = status; detail = [] };
  invocations = 0;
}

-- The entry that a prepare fills in.
abbrev pub prepared : ℕ → ℕ → Message → ℕ → ℕ → Ticket
prepared window_ms source m new_ticket now = record {
  nonce = m.token;
  ticket = new_ticket;
  expires = now + window_ms;
  source = source;
  command = m.command_id;
  request = m.request_id;
  size = m.payload_size;
  count = m.arg_count;
  complete = false;
  payload = take m.payload_size (bytes_of m.payload);
  result = record { status = 0; detail = [] };
}

abbrev pub arguments : Message → Result (List Arg)
arguments m = decode_args m.arg_count max_args (take m.payload_size (bytes_of m.payload))

-- A prepare whose nonce is not in the cache.
unfoldable pub prepare : ℕ → List Ticket → ℕ → Message → ℕ → ℕ → Reply
prepare window_ms cache source m new_ticket now = elim (free_entry now cache) [
  | none ↦ refused cache m status_busy
  | some i ↦
      if (new_ticket == 0) || collides now new_ticket cache
      then refused cache m status_unavailable
      else elim (arguments m) [
        | err e ↦ refused cache m status_invalid
        | ok args ↦ record {
          cache = set cache i (prepared window_ms source m new_ticket now);
          ticket = new_ticket;
          result = record { status = status_ok; detail = [] };
          invocations = 0;
        }
      ]
]

module _ (invoke : ℕ → List Arg → ℕ → Outcome) where
  -- `*result` at the end of the dispatch, and whether the command has run.
  abbrev pub outcome : ℕ → Message → Outcome × ℕ
  outcome source m = elim (arguments m) [
    | err code ↦ (record { status = status_invalid; detail = [] }, 0)
    | ok args ↦ (invoke m.command_id args source, 1)
  ]

  -- The end of the dispatch: the command of an entry that is not complete runs.
  unfoldable pub execute : List Ticket → ℕ → ℕ → Ticket → Message → Reply
  execute cache source i e m = record {
    cache = set cache i (record e { complete = true; result = (outcome source m).0 });
    ticket = e.ticket;
    result = (outcome source m).0;
    invocations = (outcome source m).1;
  }

  -- A request whose entry is in the cache.
  unfoldable pub answer : List Ticket → ℕ → ℕ → Ticket → Message → Reply
  answer cache source i e m =
      if not (matches e m)
      then refused cache m status_invalid
      else if m.opcode == op_prepare
      then record {
        cache = cache;
        ticket = e.ticket;
        result = record { status = status_ok; detail = [] };
        invocations = 0;
      }
      else if e.complete
      then record { cache = cache; ticket = e.ticket; result = e.result; invocations = 0 }
      else execute cache source i e m

  -- `kfsw_command_retry_dispatch`. An index that the search finds is one of the cache, so the case
  -- without an entry there is never reached.
  unfoldable pub dispatch : ℕ → List Ticket → ℕ → Message → ℕ → ℕ → Reply
  dispatch window_ms cache source m new_ticket now =
      if is_malformed m
      then refused cache m status_invalid
      else elim (find_entry now source m cache) [
        | none ↦
            if m.opcode == op_prepare
            then prepare window_ms cache source m new_ticket now
            else record {
              cache = cache;
              ticket = m.token;
              result = record { status = status_unavailable; detail = unknown_ticket };
              invocations = 0;
            }
        | some i ↦ elim (get_elem? cache i) [
          | none ↦ refused cache m status_unavailable
          | some e ↦ answer cache source i e m
        ]
      ]
