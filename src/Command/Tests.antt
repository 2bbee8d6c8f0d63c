-- ===== src/Command/Tests.antt =====
-- The theorems about command_protocol.c and command_retry.c at concrete inputs: command 7 with one
-- integer argument, sent from node 5 under ticket 900.
use kfsw_services.Common.{ℕ, ◌+◌, ◌≤◌, ◌≡◌, refl, false, List, [], ◌∷◌, arith, some, inr, list_eq}
use kfsw_services.Common.Codes.{ok}
use kfsw_services.Command.{
  Message, encode, decode, Arg, u32_arg, text_arg, encode_args, decode_args, value_bytes,
  encode_from, decode_from, decode_value, has_zero,
}
use kfsw_services.Command.Codec.{IsWire, message_decode-encode, message_encode-decode}
use kfsw_services.Command.Args.{decode_args-encode_args}
use kfsw_services.Command.Rebuild.{encode_args-decode_args}
use kfsw_services.Command.Retry.{
  Outcome, Ticket, dispatch, find_entry, free_entry, collides, prepare, answer, execute, matches,
  is_malformed,
}
use kfsw_services.Command.Once.{Call, run_invocations, run_granted, run_invocations_lem}
use kfsw_services.Command.Pending.{pending}
use kfsw_services.Command.Again.{run_cache, dispatch_again}

abbrev argument : List ℕ
argument = 1 ∷ 0 ∷ 4 ∷ 0 ∷ 0 ∷ 1 ∷ 2 ∷ []

abbrev request : ℕ → ℕ → Message
request opcode token = record {
  version = 2;
  token = token;
  opcode = opcode;
  status = 0;
  arg_count = 1;
  command_id = 7;
  request_id = 300;
  payload_size = 7;
  payload = some argument;
}

abbrev packet : List ℕ
packet = 2 ∷ 5 ∷ 0 ∷ 1 ∷ 0 ∷ 7 ∷ 1 ∷ 44 ∷ 0 ∷ 7 ∷ 0 ∷ 0 ∷ 0 ∷ 0 ∷ 0 ∷ 0 ∷ 0 ∷ 0 ∷ 3 ∷ 132 ∷ argument

request-IsWire : IsWire (request 5 900) argument
request-IsWire = record {
  opcode = inr (refl, omega arith, omega arith);
  token = omega arith;
  command_id = omega arith;
  request_id = omega arith;
  payload = refl;
  payload_size = refl;
}

message_decode-encode_example : decode packet ≡ ok (request 5 900)
unfolding encode
message_decode-encode_example =
    message_decode-encode (request 5 900) argument 32 request-IsWire refl

message_encode-decode_test : encode (request 5 900) 27 ≡ ok packet
unfolding decode
message_encode-decode_test = message_encode-decode packet (omega arith) refl

abbrev two_args : List Arg
two_args = u32_arg 258 ∷ text_arg (some (104 ∷ 105 ∷ [])) ∷ []

decode_args-encode_args_example :
    decode_args 2 4 (1 ∷ 0 ∷ 4 ∷ 0 ∷ 0 ∷ 1 ∷ 2 ∷ 3 ∷ 0 ∷ 2 ∷ 104 ∷ 105 ∷ []) ≡ ok two_args
unfolding encode_args encode_from value_bytes has_zero
decode_args-encode_args_example =
    decode_args-encode_args two_args 192 4 (omega arith, (refl, tt)) (omega arith) refl

encode_args-decode_args_test : encode_args (u32_arg 258 ∷ []) 7 ≡ ok argument
unfolding decode_args decode_from decode_value
encode_args-decode_args_test =
    encode_args-decode_args 1 4 argument (u32_arg 258 ∷ []) (omega arith) (omega arith) refl

abbrev invoke : ℕ → List Arg → ℕ → Outcome
invoke id args source = record { status = 0; detail = id ∷ [] }

abbrev invoke_later : ℕ → List Arg → ℕ → Outcome
invoke_later id args source = record { status = 5; detail = [] }

abbrev out : Ticket
out = record {
  nonce = 11;
  ticket = 900;
  expires = 6000;
  source = 5;
  command = 7;
  request = 300;
  size = 7;
  count = 1;
  complete = false;
  payload = argument;
  result = record { status = 0; detail = [] };
}

abbrev empty : Ticket
empty = record {
  nonce = 0;
  ticket = 0;
  expires = 0;
  source = 0;
  command = 0;
  request = 0;
  size = 0;
  count = 0;
  complete = false;
  payload = [];
  result = record { status = 0; detail = [] };
}

-- A prepare, its repetition, the execution and its repetition.
abbrev calls : List Call
calls =
    record { invoke = invoke; source = 5; message = request 3 11; new_ticket = 900; now = 1000 }
    ∷ record { invoke = invoke; source = 5; message = request 3 11; new_ticket = 901; now = 1500 }
    ∷ record { invoke = invoke; source = 5; message = request 5 900; new_ticket = 0; now = 2000 }
    ∷ record { invoke = invoke; source = 5; message = request 5 900; new_ticket = 0; now = 2500 }
    ∷ []

run_calls :
    (run_invocations 900 5000 (empty ∷ empty ∷ []) calls ≡ 1)
    × (run_granted 900 5000 (empty ∷ empty ∷ []) calls ≡ 1)
unfolding run_invocations run_granted dispatch prepare free_entry collides find_entry answer execute
    matches is_malformed decode_args decode_from decode_value list_eq
run_calls = (refl, refl)

run_invocations_lem_example :
    run_invocations 900 5000 (empty ∷ empty ∷ []) calls
    ≤ pending 900 (empty ∷ empty ∷ []) + run_granted 900 5000 (empty ∷ empty ∷ []) calls
run_invocations_lem_example = run_invocations_lem 900 5000 (empty ∷ empty ∷ []) calls

-- Another node prepares a request of its own between an execution and its repetition.
abbrev other_calls : List Call
other_calls =
    record { invoke = invoke; source = 6; message = request 3 12; new_ticket = 901; now = 2500 }
    ∷ []

dispatch_again_example :
    let r = dispatch invoke 5000 (empty ∷ out ∷ []) 5 (request 5 900) 0 2000 in
    let between = run_cache 5000 r.cache other_calls in
    dispatch invoke_later 5000 between 5 (request 5 900) 0 3000
    ≡ record r { cache = between; invocations = 0 }
unfolding dispatch find_entry answer execute matches is_malformed decode_args decode_from
    decode_value list_eq
dispatch_again_example =
    dispatch_again invoke invoke_later 5000 (empty ∷ out ∷ []) 5 (request 5 900) 1 out 0 2000
      other_calls 0 3000 refl refl refl refl (omega arith, omega arith) (omega arith)
