-- ===== src/Ftp.antt =====
-- src/ftp/ftp_protocol.c: the packets of a file transfer, the paths that a request may name, and the
-- status on the wire. The counters and the settings of ftp_state.c are in the child `Settings`. A path
-- is the list of its bytes before the terminator, or a null pointer; the destinations of results are
-- given.
pub mod Paths
pub mod Codec
pub mod Status
pub mod Settings
mod Tests
use kfsw_services.Common.{
  ℕ, suc, ◌+◌, ◌-◌, Bool, true, false, not, ◌&&◌, ◌||◌, Option, none, some, List, [], ◌∷◌, ◌++◌,
  ltb, leb, ◌==◌, if◌then◌else◌, length, take, drop, get_or, list_eq,
}
use kfsw_services.Common.Words.{put_be16, put_be32, byte_at, get_be16, get_be32, u32}
use kfsw_services.Common.Codes.{
  Code, Result, ok, err, success, einval, emsgsize, eprotonosupport, enotsup, ebadmsg, erofs,
  enametoolong, enoent, eexist, enospc, eilseq, ebusy, etimedout, econnrefused, econnreset, enotdir,
  eisdir, eio, erange,
}
use kfsw_services.Event.{is_null, bytes_of}

-- `struct kfsw_ftp_message`.
pub record Message : Type 0 where
  pub opcode : ℕ
  pub flags : ℕ
  pub status : ℕ
  pub request_id : ℕ
  pub offset : ℕ
  pub total_size : ℕ
  pub crc32 : ℕ
  pub path_size : ℕ
  pub data_size : ℕ
  pub path : Option (List ℕ)
  pub contents : Option (List ℕ)

-- KFSW_FTP_OP_MKDIR_REQUEST and KFSW_FTP_OP_GET_RESULT.
abbrev pub op_first : ℕ
op_first = 1

abbrev pub op_last : ℕ
op_last = 15

abbrev pub max_path_size : ℕ
max_path_size = 96

abbrev pub chunk_size : ℕ
chunk_size = 192

-- KFSW_FTP_PROTOCOL_HEADER_SIZE.
abbrev pub header_size : ℕ
header_size = 24

-- The bytes before the path.
abbrev pub header : Message → List ℕ
header m =
    1
    ∷ m.opcode
    ∷ m.flags
    ∷ m.status
    ∷ (put_be32 m.request_id
        ++ (put_be32 m.offset
            ++ (put_be32 m.total_size
                ++ (put_be32 m.crc32 ++ (put_be16 m.path_size ++ put_be16 m.data_size)))))

-- `kfsw_ftp_protocol_encode` into a buffer of `capacity` bytes: the bytes written.
unfoldable pub encode : Message → ℕ → Result (List ℕ)
encode m capacity =
    if ltb m.opcode op_first
      || ltb op_last m.opcode
      || ltb max_path_size m.path_size
      || ltb chunk_size m.data_size
      || (not (m.path_size == 0) && is_null m.path)
      || (not (m.data_size == 0) && is_null m.contents)
    then err einval
    else if ltb capacity (header_size + m.path_size + m.data_size)
    then err emsgsize
    else ok
        (header m ++ (take m.path_size (bytes_of m.path) ++ take m.data_size (bytes_of m.contents)))

-- The message that the decoder fills in. Its two pointers go into the packet, so that more bytes may
-- be read behind the sizes.
abbrev pub parsed : List ℕ → Message
parsed b = record {
  opcode = byte_at b 1;
  flags = byte_at b 2;
  status = byte_at b 3;
  request_id = get_be32 b 4;
  offset = get_be32 b 8;
  total_size = get_be32 b 12;
  crc32 = get_be32 b 16;
  path_size = get_be16 b 20;
  data_size = get_be16 b 22;
  path = some (drop header_size b);
  contents = some (drop (header_size + get_be16 b 20) b);
}

-- `memchr(bytes, '\0', ..) != NULL`.
unfoldable pub has_nul : List ℕ → Bool
has_nul [] = false
has_nul (c ∷ cs) = let rest = has_nul cs in (c == 0) || rest

-- `kfsw_ftp_protocol_decode`.
unfoldable pub decode : List ℕ → Result Message
decode b =
    if ltb (length b) header_size
    then err emsgsize
    else if not (byte_at b 0 == 1)
    then err eprotonosupport
    else if ltb (byte_at b 1) op_first || ltb op_last (byte_at b 1)
    then err enotsup
    else if ltb max_path_size (get_be16 b 20) || ltb chunk_size (get_be16 b 22)
    then err emsgsize
    else if not (header_size + get_be16 b 20 + get_be16 b 22 == length b)
    then err emsgsize
    else if not (get_be16 b 20 == 0) && has_nul (take (get_be16 b 20) (drop header_size b))
    then err ebadmsg
    else ok (parsed b)

-- `kfsw_ftp_copy_message_path` into a buffer of `capacity` bytes.
unfoldable pub copy_message_path : Message → ℕ → Result (List ℕ)
copy_message_path m capacity =
    if (m.path_size == 0) || leb capacity m.path_size
    then err einval
    else ok (take m.path_size (bytes_of m.path))

-- An entry of `extra_roots`.
pub record ExtraRoot : Type 0 where
  pub prefix : List ℕ
  pub root : List ℕ
  pub writable : Bool

-- A path without the one slash that it may start with.
abbrev pub without_slash : List ℕ → List ℕ
without_slash [] = []
without_slash (c ∷ cs) = if c == 47 then cs else c ∷ cs

-- A path whose first component is the prefix: what is behind the prefix starts with a slash, or is
-- empty.
abbrev pub at_boundary : List ℕ → Bool
at_boundary [] = true
at_boundary (c ∷ cs) = c == 47

abbrev pub selects : List ℕ → ExtraRoot → Bool
selects relative r =
    let size = length r.prefix in
    list_eq (take size relative) r.prefix && at_boundary (drop size relative)

-- `extra_root` from its loop on.
unfoldable pub find_root : List ℕ → List ExtraRoot → Option ExtraRoot
find_root relative [] = none
find_root relative (r ∷ rs) =
    let rest = find_root relative rs in if selects relative r then some r else rest

-- `extra_root`.
unfoldable pub extra_root : List ExtraRoot → Option (List ℕ) → Option ExtraRoot
extra_root roots none = none
extra_root roots (some path) = find_root (without_slash path) roots

-- `kfsw_ftp_path_is_read_only`.
unfoldable pub path_is_read_only : List ExtraRoot → Option (List ℕ) → Bool
path_is_read_only roots path = elim (extra_root roots path) [
  | none ↦ false
  | some r ↦ not r.writable
]

-- The tests of one component at its end.
unfoldable pub component_is_bad : List ℕ → Bool
component_is_bad component =
    (length component == 0)
    || ((length component == 1) && (get_or component 0 0 == 46))
    || ((length component == 2) && (get_or component 0 0 == 46) && (get_or component 1 0 == 46))

-- A character that no path may have.
abbrev pub is_forbidden : ℕ → Bool
is_forbidden c = (c == 92) || ltb c 32 || (c == 127)

-- The loop of `kfsw_ftp_resolve_path` behind the characters of a component.
unfoldable pub check_components : List ℕ → List ℕ → Bool
check_components component [] = not (component_is_bad component)
check_components component (c ∷ cs) =
    let next = if c == 47 then [] else component ++ (c ∷ []) in
    let rest = check_components next cs in
    (if c == 47 then not (component_is_bad component) else not (is_forbidden c)) && rest

-- The end of `kfsw_ftp_resolve_path`, with the root and what is below it.
unfoldable pub resolve_below : List ℕ → List ℕ → Bool → ℕ → Result (List ℕ)
resolve_below root relative allow_root capacity =
    if length relative == 0
    then if not allow_root || leb capacity (length root) then err einval else ok root
    else if leb capacity (length root + 1 + length relative)
    then err enametoolong
    else if not (check_components [] relative)
    then err einval
    else ok (root ++ (47 ∷ relative))

module _ (storage_root : List ℕ) (roots : List ExtraRoot) where
  -- `kfsw_ftp_resolve_path` into a buffer of `capacity` bytes: the path before the terminator.
  unfoldable pub resolve_path : Option (List ℕ) → Bool → ℕ → Result (List ℕ)
  resolve_path none allow_root capacity = err einval
  resolve_path (some path) allow_root capacity =
      if ltb max_path_size (length path)
      then err enametoolong
      else elim (extra_root roots (some path)) [
        | none ↦ resolve_below storage_root (without_slash path) allow_root capacity
        | some r ↦
            let below = without_slash (drop (length r.prefix) (without_slash path)) in
            resolve_below r.root below allow_root capacity
      ]

  -- `kfsw_ftp_resolve_write_path`.
  unfoldable pub resolve_write_path : Option (List ℕ) → ℕ → Result (List ℕ)
  resolve_write_path path capacity =
      if path_is_read_only roots path then err erofs else resolve_path path false capacity

  -- `kfsw_ftp_validate_path`: KFSW_FTP_FULL_PATH_SIZE is 128.
  abbrev pub validate_path : Option (List ℕ) → Bool → Code
  validate_path path allow_root = elim (resolve_path path allow_root 128) [
    | err code ↦ code
    | ok resolved ↦ success
  ]

-- `kfsw_ftp_wire_status_to_errno`, with `enum kfsw_ftp_wire_status` by its numbers.
unfoldable pub wire_status_to_errno : ℕ → Code
wire_status_to_errno status =
    if status == 0
    then success
    else if status == 1
    then ebadmsg
    else if status == 2
    then einval
    else if status == 3
    then enoent
    else if status == 4
    then eexist
    else if status == 5
    then enospc
    else if status == 7
    then eilseq
    else if status == 8
    then ebusy
    else if status == 9
    then enotsup
    else if status == 10
    then etimedout
    else if status == 11
    then econnrefused
    else if status == 12
    then enotdir
    else if status == 13
    then erofs
    else eio

-- `kfsw_ftp_errno_to_wire_status`, on the magnitude of the error.
unfoldable pub errno_to_wire_status : Code → ℕ
errno_to_wire_status e =
    if e == success
    then 0
    else if (e == einval) || (e == enametoolong)
    then 2
    else if e == enoent
    then 3
    else if e == eexist
    then 4
    else if e == erofs
    then 13
    else if e == enospc
    then 5
    else if (e == eilseq) || (e == ebadmsg)
    then 7
    else if e == ebusy
    then 8
    else if (e == enotsup) || (e == eprotonosupport)
    then 9
    else if e == etimedout
    then 10
    else if (e == econnrefused) || (e == econnreset)
    then 11
    else if (e == eisdir) || (e == enotdir)
    then 12
    else 6
