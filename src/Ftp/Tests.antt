-- ===== src/Ftp/Tests.antt =====
-- The theorems about ftp_protocol.c at concrete inputs.
use kfsw_services.Common.{ℕ, ◌≤◌, ◌≡◌, ◌↔◌, refl, true, false, some, List, [], ◌∷◌, arith, list_eq}
use kfsw_services.Common.Codes.{ok, err, erofs, einval, success}
use kfsw_services.Ftp.{
  Message, ExtraRoot, encode, decode, has_nul, extra_root, find_root, path_is_read_only,
  component_is_bad, check_components, resolve_below, resolve_path, resolve_write_path,
  wire_status_to_errno, errno_to_wire_status,
}
use kfsw_services.Ftp.Codec.{IsWire, received, packet_decode-encode}
use kfsw_services.Ftp.Paths.{Resolved, resolve_path-Resolved, resolve_write_path-Resolved}
use kfsw_services.Ftp.Settings.{State, IsInRange, set_timeout_ms, set_chunk_size, setters-IsInRange}
use kfsw_services.Ftp.Status.{
  errno_to_wire_status-wire_status_to_errno, errno_to_wire_status-success,
}

-- "/r", and "/h" as the read-only root of "hk".
abbrev storage : List ℕ
storage = 47 ∷ 114 ∷ []

abbrev hk : ExtraRoot
hk = record { prefix = 104 ∷ 107 ∷ []; root = 47 ∷ 104 ∷ []; writable = false }

abbrev tmp : ExtraRoot
tmp = record { prefix = 116 ∷ []; root = 47 ∷ 116 ∷ []; writable = true }

abbrev roots : List ExtraRoot
roots = hk ∷ tmp ∷ []

-- "/hk/a.b" and "t/x".
abbrev of_hk : List ℕ
of_hk = 47 ∷ 104 ∷ 107 ∷ 47 ∷ 97 ∷ 46 ∷ 98 ∷ []

abbrev of_tmp : List ℕ
of_tmp = 116 ∷ 47 ∷ 120 ∷ []

resolves : resolve_path storage roots (some of_hk) false 20 ≡ ok (47 ∷ 104 ∷ 47 ∷ 97 ∷ 46 ∷ 98 ∷ [])
unfolding resolve_path extra_root find_root list_eq resolve_below check_components component_is_bad
resolves = refl

-- "../a" is refused.
refuses_dots : resolve_path storage roots (some (46 ∷ 46 ∷ 47 ∷ 97 ∷ [])) false 20 ≡ err einval
unfolding resolve_path extra_root find_root list_eq resolve_below check_components component_is_bad
refuses_dots = refl

resolve_path-Resolved_example :
    Resolved storage roots of_hk false 20 (47 ∷ 104 ∷ 47 ∷ 97 ∷ 46 ∷ 98 ∷ [])
resolve_path-Resolved_example =
    resolve_path-Resolved storage roots of_hk false 20 (47 ∷ 104 ∷ 47 ∷ 97 ∷ 46 ∷ 98 ∷ []) resolves

read_only : resolve_write_path storage roots (some of_hk) 20 ≡ err erofs
unfolding resolve_write_path path_is_read_only extra_root find_root list_eq
read_only = refl

resolves_for_writing :
    resolve_write_path storage roots (some of_tmp) 20 ≡ ok (47 ∷ 116 ∷ 47 ∷ 120 ∷ [])
unfolding resolve_write_path path_is_read_only resolve_path extra_root find_root list_eq
    resolve_below check_components component_is_bad
resolves_for_writing = refl

resolve_write_path-Resolved_example :
    Resolved storage roots of_tmp false 20 (47 ∷ 116 ∷ 47 ∷ 120 ∷ [])
    × ((e : ExtraRoot) → extra_root roots (some of_tmp) ≡ some e → e.writable ≡ true)
resolve_write_path-Resolved_example =
    resolve_write_path-Resolved storage roots of_tmp 20 (47 ∷ 116 ∷ 47 ∷ 120 ∷ [])
      resolves_for_writing

-- A request to put two bytes into "a".
abbrev request : Message
request = record {
  opcode = 8;
  flags = 1;
  status = 0;
  request_id = 77;
  offset = 0;
  total_size = 2;
  crc32 = 0xdead_beef;
  path_size = 1;
  data_size = 2;
  path = some (97 ∷ []);
  contents = some (5 ∷ 6 ∷ []);
}

request_IsWire : IsWire request (97 ∷ []) (5 ∷ 6 ∷ [])
unfolding has_nul
request_IsWire = record {
  first = omega arith;
  last = omega arith;
  request_id = omega arith;
  offset = omega arith;
  total_size = omega arith;
  crc32 = omega arith;
  has_path = refl;
  has_contents = refl;
  path_size = refl;
  data_size = refl;
  no_nul = refl;
}

abbrev packet : List ℕ
packet =
    1 ∷ 8 ∷ 1 ∷ 0 ∷ 0 ∷ 0 ∷ 0 ∷ 77 ∷ 0 ∷ 0 ∷ 0 ∷ 0 ∷ 0 ∷ 0 ∷ 0 ∷ 2 ∷ 222 ∷ 173 ∷ 190 ∷ 239 ∷ 0 ∷ 1
    ∷ 0 ∷ 2 ∷ 97 ∷ 5 ∷ 6 ∷ []

encodes : encode request 256 ≡ ok packet
unfolding encode
encodes = refl

packet_decode-encode_example : decode packet ≡ ok (received request (97 ∷ []) (5 ∷ 6 ∷ []))
packet_decode-encode_example =
    packet_decode-encode request (97 ∷ []) (5 ∷ 6 ∷ []) 256 packet request_IsWire encodes

errno_to_wire_status-wire_status_to_errno_test : errno_to_wire_status (wire_status_to_errno 12) ≡ 12
errno_to_wire_status-wire_status_to_errno_test =
    errno_to_wire_status-wire_status_to_errno 12 (omega arith) (λ e. ground (arith, e))

errno_to_wire_status-success_test :
    ((errno_to_wire_status 5 ≡ 0) ↔ (5 ≡ success))
    × ((wire_status_to_errno 3 ≡ success) ↔ ◌≡◌ {A = ℕ} 3 0)
    × (errno_to_wire_status 5 ≤ 13)
errno_to_wire_status-success_test = errno_to_wire_status-success 5 3

abbrev settings : State
settings = record { transfers = 0; failures = 0; bytes = 0; timeout_ms = 5000; chunk_size = 192 }

setters-IsInRange_test :
    IsInRange (set_timeout_ms 0 settings).0 × IsInRange (set_chunk_size 100 settings).0
setters-IsInRange_test = setters-IsInRange 0 100 settings (record {
  least = omega arith;
  most = omega arith;
  some_bytes = omega arith;
  fits = omega arith;
})
