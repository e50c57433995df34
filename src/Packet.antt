-- ===== src/Packet.antt =====
-- _include/ser_pkg_defs.h and the sizes of _include/ser_socket.h: the layout of a packet.
-- A packet is a list of bytes: the header of 8 bytes, then the body. Numbers on the wire stand
-- in network order, so `ntohs` and `htons` of a field are the big-endian reading and writing of
-- its bytes, on every host.
use linux_communication.Common.{
  ℕ, ◌+◌, ◌*◌, ◌/◌, ◌^◌, ◌<◌, ◌≡◌, arith, List, [], ◌∷◌, ◌++◌, get_or, u8,
}

-- `PKG_MAX_LENGTH`
abbrev pub pkg_max_length : ℕ
pkg_max_length = 30000

-- `PKG_HEADER_LENGTH`: sizeof(PKG_HEADER), packed: 2 + 2 + 4 bytes.
abbrev pub pkg_header_length : ℕ
pkg_header_length = 8

-- `PKG_HEAD_INFO_SIZE`
abbrev pub pkg_head_info_size : ℕ
pkg_head_info_size = pkg_header_length + 10

-- `MSG_HEADER_LENGTH`: sizeof(MSG_HEADER), a pointer and a uint64_t.
abbrev pub msg_header_length : ℕ
msg_header_length = 16

-- `PkgState`
pub data PkgState : Type 0 where
  pkg_hd_init pkg_hd_recving pkg_bd_init pkg_bd_recving : PkgState

abbrev pub be16 : ℕ → List ℕ
be16 n = u8 (n / 2 ^ 8) ∷ u8 n ∷ []

abbrev pub be32 : ℕ → List ℕ
be32 n = u8 (n / 2 ^ 24) ∷ u8 (n / 2 ^ 16) ∷ u8 (n / 2 ^ 8) ∷ u8 n ∷ []

-- `ntohs(pPkgHeader->pkgLen)`
abbrev pub pkg_len : List ℕ → ℕ
pkg_len pkg = get_or pkg 0 0 * 2 ^ 8 + get_or pkg 1 0

-- `ntohs(pPkgHeader->msgCode)`
abbrev pub msg_code : List ℕ → ℕ
msg_code pkg = get_or pkg 2 0 * 2 ^ 8 + get_or pkg 3 0

-- `ntohl(pPkgHeader->crc32)`, as its 32-bit pattern.
abbrev pub crc32 : List ℕ → ℕ
crc32 pkg =
    get_or pkg 4 0 * 2 ^ 24 + get_or pkg 5 0 * 2 ^ 16 + get_or pkg 6 0 * 2 ^ 8 + get_or pkg 7 0

-- The header that the three assignments to `*pPkgHeader` write.
abbrev pub pkg_header : ℕ → ℕ → ℕ → List ℕ
pkg_header len code crc = be16 len ++ (be16 code ++ be32 crc)

pub pkg_header-fields :
    (len code crc : ℕ) (body : List ℕ)
    → len < 2 ^ 16
    → code < 2 ^ 16
    → crc < 2 ^ 32
    → (pkg_len (pkg_header len code crc ++ body) ≡ len)
      × (msg_code (pkg_header len code crc ++ body) ≡ code)
      × (crc32 (pkg_header len code crc ++ body) ≡ crc)
pkg_header-fields len code crc body h k l = omega arith
