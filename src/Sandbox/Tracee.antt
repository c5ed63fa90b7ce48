-- ===== src/Sandbox/Tracee.antt =====
-- crates/jkr-sandbox/src/capture/linux_ptrace.rs: what the tracer reads of a stopped process.
-- The numbers of system calls, the lossy decoding of UTF-8 and the printing of an IPv6 address are
-- libraries'; the registers and the memory are the kernel's.
use tkr.Prelude.{
  ℕ, zero, suc, ◌+◌, ◌*◌, Option, none, some, List, [], ◌∷◌, ◌++◌, Text, codes, take, get_elem?,
  decimal, ltb, ◌==◌, if◌then◌else◌, length,
}
use tkr.Sandbox.Trace.{NetFamily}

-- The numbers that the tracer tells apart; the others are `other`.
pub data Sysno : Type 0 where
  openat open_ newfstatat statx unlinkat connect execve other : Sysno

-- An `i64`: `negsuc n` is `-(n + 1)`.
pub data ℤ : Type 0 where
  pos negsuc : ℕ → ℤ

pub record Regs : Type 0 where
  pub syscall_nr : ℕ
  pub args : List ℕ
  pub retval : ℤ

pub record Platform : Type 0 where
  -- Sysno::new
  pub sysno_new : ℕ → Option Sysno
  pub from_utf8_lossy : List ℕ → Text
  pub show_ipv6 : List ℕ → Text

-- A stopped process: its registers, if they can be read, and the bytes of `/proc/<pid>/mem` from an
-- address on, if that can be opened, sought and read.
pub record Stopped : Type 0 where
  pub getregs : Option Regs
  pub memory : ℕ → Option (List ℕ)

abbrev pub elem_or_zero : Option ℕ → ℕ
elem_or_zero (some n) = n
elem_or_zero none = 0

-- There are six arguments.
abbrev pub arg : Regs → ℕ → ℕ
arg regs i = elem_or_zero (get_elem? regs.args i)

-- `&buf[..end]`: the bytes before the first zero.
unfoldable pub until_nul : List ℕ → List ℕ
until_nul [] = []
until_nul (b ∷ bs) = let rest = until_nul bs in if b == 0 then [] else b ∷ rest

-- The tail of a zeroed buffer into which fewer bytes were read is zero.
abbrev pub byte_at : List ℕ → ℕ → ℕ
byte_at hdr i = elem_or_zero (get_elem? hdr i)

unfoldable pub show_ipv4 : List ℕ → Text
unfolding decimal
show_ipv4 hdr =
    decimal (byte_at hdr 4)
    ++ b'.' ∷ decimal (byte_at hdr 5)
    ++ b'.' ∷ decimal (byte_at hdr 6)
    ++ b'.' ∷ decimal (byte_at hdr 7)

-- A `[u8; 16]` from bytes 8 to 23 of the header.
unfoldable pub octets : List ℕ → ℕ → ℕ → List ℕ
octets hdr i zero = []
octets hdr i (suc n) = byte_at hdr i ∷ octets hdr (i + 1) n

module _ (platform : Platform) where
  unfoldable pub decode_cstr : Option (List ℕ) → Text
  unfolding until_nul
  decode_cstr none = []
  decode_cstr (some bytes) = platform.from_utf8_lossy (until_nul (take 4096 bytes))

  unfoldable pub read_cstr : Stopped → ℕ → Text
  unfolding decode_cstr
  read_cstr process addr = if addr == 0 then [] else decode_cstr (process.memory addr)

  -- AF_INET is 2, AF_INET6 is 10 and AF_UNIX is 1.
  unfoldable pub decode_sockaddr : Option (List ℕ) → Option (Text × NetFamily)
  unfolding show_ipv4 octets decimal
  decode_sockaddr none = none
  decode_sockaddr (some bytes) =
      let hdr = take 28 bytes in
      let fam = byte_at hdr 0 + 256 * byte_at hdr 1 in
      let port = decimal (byte_at hdr 2 * 256 + byte_at hdr 3) in
      if ltb (length hdr) 2
      then none
      else if fam == 2
      then some (show_ipv4 hdr ++ b':' ∷ port, NetFamily.v4)
      else if fam == 10
      then some (b'[' ∷ platform.show_ipv6 (octets hdr 8 16) ++ codes "]:" ++ port, NetFamily.v6)
      else if fam == 1
      then some (codes "unix", NetFamily.unix)
      else none

  unfoldable pub read_sockaddr : Stopped → ℕ → Option (Text × NetFamily)
  unfolding decode_sockaddr
  read_sockaddr process addr = if addr == 0 then none else decode_sockaddr (process.memory addr)
