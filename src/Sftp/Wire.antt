-- ===== src/Sftp/Wire.antt =====
-- sftp.cc: the packing of numbers and strings into packets, and their unpacking.
pub mod Laws
pub mod Bounds
use hbackup.Prelude.{
  ℕ, zero, suc, ◌+◌, ◌*◌, ◌/◌, ◌%◌, [], ◌∷◌, ◌++◌, Bool, true, false, length, take, drop, Bytes,
  bytes_eq, ltb, ◌==◌, if◌then◌else◌,
}
use hbackup.Prelude.Dict
use hbackup.Prelude.Dict.{Dict}
use hbackup.Outcome.{Result, ok, err, fatal, out_of_range, ◌>>=◌}

-- The end of uint32_t.
abbrev pub word_size : ℕ
word_size = 4294967296

unfoldable pub pack_uint8 : Bytes → ℕ → Bytes
pack_uint8 s byte = s ++ byte % 256 ∷ []

unfoldable pub pack_uint32 : Bytes → ℕ → Bytes
unfolding pack_uint8
pack_uint32 s u =
    pack_uint8 (pack_uint8 (pack_uint8 (pack_uint8 s (u / 16777216)) (u / 65536)) (u / 256)) u

unfoldable pub pack_uint64 : Bytes → ℕ → Bytes
unfolding pack_uint32 pack_uint8
pack_uint64 s u =
    pack_uint8
      (pack_uint8
        (pack_uint8
          (pack_uint8
            (pack_uint8
              (pack_uint8 (pack_uint8 (pack_uint8 s (u / 72057594037927936)) (u / 281474976710656))
                (u / 1099511627776))
              (u / 4294967296))
            (u / 16777216))
          (u / 65536))
        (u / 256))
      u

-- pack_string(), and pack_bytes() on a string.
unfoldable pub pack_string : Bytes → Bytes → Bytes
unfolding pack_uint32
pack_string s t = pack_uint32 s (length t % word_size) ++ t

-- `s.at(0)` of what is left.
unfoldable pub first_of : Bytes → Result ℕ
first_of [] = err out_of_range
first_of (c ∷ s) = ok c

-- Each of these returns what it reads and the index behind it.
unfoldable pub unpack_uint8 : Bytes → ℕ → Result (ℕ × ℕ)
unfolding first_of
unpack_uint8 s index = do c ← first_of (drop index s); ok (c, index + 1)

unfoldable pub unpack_uint32 : Bytes → ℕ → Result (ℕ × ℕ)
unfolding unpack_uint8
unpack_uint32 s index = do
  (a, i1) ← unpack_uint8 s index
  (b, i2) ← unpack_uint8 s i1
  (c, i3) ← unpack_uint8 s i2
  (d, i4) ← unpack_uint8 s i3
  ok ((a * 16777216 + b * 65536 + c * 256 + d) % word_size, i4)

unfoldable pub unpack_uint64 : Bytes → ℕ → Result (ℕ × ℕ)
unfolding unpack_uint8
unpack_uint64 s index = do
  (a, i1) ← unpack_uint8 s index
  (b, i2) ← unpack_uint8 s i1
  (c, i3) ← unpack_uint8 s i2
  (d, i4) ← unpack_uint8 s i3
  (e, i5) ← unpack_uint8 s i4
  (f, i6) ← unpack_uint8 s i5
  (g, i7) ← unpack_uint8 s i6
  (h, i8) ← unpack_uint8 s i7
  ok (
    (a * 72057594037927936
          + b * 281474976710656
          + c * 1099511627776
          + d * 4294967296
          + e * 16777216
          + f * 65536
          + g * 256
          + h)
        % 18446744073709551616,
    i8,
  )

-- The constructor of std::string cuts a length that runs over the end, and throws if the start does.
unfoldable pub unpack_string : Bytes → ℕ → Result (Bytes × ℕ)
unfolding unpack_uint32
unpack_string s index = do
  (len, i) ← unpack_uint32 s index
  if ltb (length s) i then err out_of_range else ok (take len (drop i s), i + len)

pub record Status : Type 0 where
  pub status : ℕ
  pub message : Bytes
  pub lang : Bytes

unfoldable pub unpack_status : Bytes → ℕ → Result (Status × ℕ)
unfolding unpack_string
unpack_status s index = do
  (st, i1) ← unpack_uint32 s index
  (m, i2) ← unpack_string s i1
  (l, i3) ← unpack_string s i2
  ok (record { status = st; message = m; lang = l }, i3)

pub record Attributes : Type 0 where
  pub flags : ℕ
  pub size : ℕ
  pub uid : ℕ
  pub gid : ℕ
  pub permissions : ℕ
  pub atime : ℕ
  pub mtime : ℕ
  pub extended : Dict Bytes Bytes

-- `flags & bit`, for a power of two.
unfoldable pub has_flag : ℕ → ℕ → Bool
has_flag flags bit = flags / bit % 2 == 1

-- `if(flags & bit) f();`
unfoldable pub when :
    Bool → (Attributes → ℕ → Result (Attributes × ℕ)) → Attributes → ℕ → Result (Attributes × ℕ)
when true f a i = f a i
when false f a i = ok (a, i)

unfoldable pub unpack_size : Bytes → Attributes → ℕ → Result (Attributes × ℕ)
unfolding unpack_uint64
unpack_size s a i = do (n, i1) ← unpack_uint64 s i; ok (record a { size = n }, i1)

unfoldable pub unpack_owner : Bytes → Attributes → ℕ → Result (Attributes × ℕ)
unfolding unpack_uint32
unpack_owner s a i = do
  (u, i1) ← unpack_uint32 s i
  (g, i2) ← unpack_uint32 s i1
  ok (record a { uid = u; gid = g }, i2)

unfoldable pub unpack_permissions : Bytes → Attributes → ℕ → Result (Attributes × ℕ)
unfolding unpack_uint32
unpack_permissions s a i = do (p, i1) ← unpack_uint32 s i; ok (record a { permissions = p }, i1)

unfoldable pub unpack_times : Bytes → Attributes → ℕ → Result (Attributes × ℕ)
unfolding unpack_uint32
unpack_times s a i = do
  (t, i1) ← unpack_uint32 s i
  (m, i2) ← unpack_uint32 s i1
  ok (record a { atime = t; mtime = m }, i2)

-- `while(count > 0)`, whose body leaves `count` as it is. A round reads eight bytes at least.
unfoldable pub extended_loop : ℕ → ℕ → Bytes → Attributes → ℕ → Result (Attributes × ℕ)
unfolding unpack_string
extended_loop zero count s a i = fatal
extended_loop (suc fuel) zero s a i = ok (a, i)
extended_loop (suc fuel) (suc count) s a i = do
  (k, i1) ← unpack_string s i
  (v, i2) ← unpack_string s i1
  extended_loop fuel (suc count) s (record a { extended = Dict.insert k v a.extended }) i2

unfoldable pub unpack_extended : Bytes → Attributes → ℕ → Result (Attributes × ℕ)
unfolding extended_loop
unpack_extended s a i = do
  (count, i1) ← unpack_uint32 s i
  extended_loop (length s + 1) count s a i1

-- unpack_attrs(), which changes `attrs`.
unfoldable pub unpack_attrs : Bytes → Attributes → ℕ → Result (Attributes × ℕ)
unfolding unpack_size unpack_owner unpack_permissions unpack_times unpack_extended when has_flag
unpack_attrs s attrs index = do
  (fl, i0) ← unpack_uint32 s index
  (a1, i1) ← when (has_flag fl 1) (unpack_size s) (record attrs { flags = fl }) i0
  (a2, i2) ← when (has_flag fl 2) (unpack_owner s) a1 i1
  (a3, i3) ← when (has_flag fl 4) (unpack_permissions s) a2 i2
  (a4, i4) ← when (has_flag fl 8) (unpack_times s) a3 i3
  when (has_flag fl 2147483648) (unpack_extended s) a4 i4
