-- ===== src/Mysql/Statement/Laws.antt =====
-- The arguments of a prepared statement, and the packet that executes it.
use Prim.Native.Nat.{bit_or}
use native.Mathlib.Nat.{zero-div}
use rbdc.Base.{
  ℕ, zero, suc, ◌+◌, ◌-◌, ◌/◌, ◌%◌, ◌^◌, ◌≤◌, ◌<◌, ◌≡◌, refl, ap, sym, ◌∙◌, inl, inr, List, [], ◌∷◌,
  ◌++◌, map, append-nil, append_assoc, Option, none, some, arith, ◌==◌, if◌then◌else◌, Bytes,
  length, length-append, take_all, length-replicate, get_elem?, set, replicate, All, All-append,
  Outcome, ok, Bool-cases, le_bytes,
}
use rbdc.Base.Bits.{byte_at, bit_of, bit_at, bit_of-bit_or, bit_or-lt}
use rbdc.Mysql.Column.{ColumnType, type_id, try_from_u16}
use rbdc.Mysql.Column.Laws.{try_from_u16-type_id}
use rbdc.Mysql.Statement.{
  MySqlTypeInfo, is_null, Argument, MySqlArguments, empty, resize, or_at, add, Execute,
  execute_arguments, add_all, from_args, type_bytes, encode_execute,
}

-- 1 where the type at a place is that of NULL, and 0 elsewhere.
abbrev pub null_at : List MySqlTypeInfo → ℕ → ℕ
null_at [] i = 0
null_at (ty ∷ types) zero = if is_null ty then 1 else 0
null_at (ty ∷ types) (suc i) = null_at types i

abbrev pub IsByte : ℕ → Type 0
IsByte b = b < 256

-- The bitmap has a byte for each eight types, and a bit for each type of NULL.
pub record MarksNulls (self : MySqlArguments) : Type 0 where
  pub size : length self.null_bitmap ≡ (length self.types + 7) / 8
  pub bytes : All IsByte self.null_bitmap
  pub marks : (i : ℕ) → bit_at self.null_bitmap i ≡ null_at self.types i

byte_at-padded : (bs : Bytes) (k j : ℕ) → byte_at (bs ++ replicate k 0) j ≡ byte_at bs j
byte_at-padded [] zero j = refl
byte_at-padded [] (suc k) zero = refl
byte_at-padded [] (suc k) (suc j) = byte_at-padded [] k j
byte_at-padded (b ∷ bs) k zero = refl
byte_at-padded (b ∷ bs) k (suc j) = byte_at-padded bs k j

byte_at-set :
    (bs : Bytes) (i j v : ℕ)
    → i < length bs
    → byte_at (set bs i v) j ≡ (if i == j then v else byte_at bs j)
byte_at-set [] i j v h = absurd (omega arith)
byte_at-set (b ∷ bs) zero zero v h = refl
byte_at-set (b ∷ bs) zero (suc j) v h = ground arith
byte_at-set (b ∷ bs) (suc i) zero v h = ground arith
byte_at-set (b ∷ bs) (suc i) (suc j) v h = ground (arith, byte_at-set bs i j v)

pub get_elem-byte_at : (bs : Bytes) (i : ℕ) → i < length bs → get_elem? bs i ≡ some (byte_at bs i)
get_elem-byte_at [] i h = absurd (omega arith)
get_elem-byte_at (b ∷ bs) zero h = refl
get_elem-byte_at (b ∷ bs) (suc i) h = get_elem-byte_at bs i (omega arith)

pub byte_at-IsByte : (bs : Bytes) (i : ℕ) → All IsByte bs → byte_at bs i < 256
byte_at-IsByte [] i h = omega arith
byte_at-IsByte (b ∷ bs) zero h = h.0
byte_at-IsByte (b ∷ bs) (suc i) h = byte_at-IsByte bs i h.1

set-IsByte : (bs : Bytes) (i v : ℕ) → All IsByte bs → v < 256 → All IsByte (set bs i v)
set-IsByte [] i v h lt = tt
set-IsByte (b ∷ bs) zero v h lt = (lt, h.1)
set-IsByte (b ∷ bs) (suc i) v h lt = (h.0, set-IsByte bs i v h.1 lt)

replicate-IsByte : (k : ℕ) → All IsByte (replicate k 0)
replicate-IsByte zero = tt
replicate-IsByte (suc k) = (omega arith, replicate-IsByte k)

length-set : (bs : Bytes) (i v : ℕ) → length (set bs i v) ≡ length bs
length-set [] i v = refl
length-set (b ∷ bs) zero v = refl
length-set (b ∷ bs) (suc i) v = ap suc (length-set bs i v)

null_at-push :
    (types : List MySqlTypeInfo) (ty : MySqlTypeInfo) (i : ℕ)
    → null_at (types ++ ty ∷ []) i
      ≡ (if length types == i then (if is_null ty then 1 else 0) else null_at types i)
null_at-push [] ty zero = refl
null_at-push [] ty (suc i) = ground arith
null_at-push (t ∷ types) ty zero = ground arith
null_at-push (t ∷ types) ty (suc i) = ground (arith, null_at-push types ty i)

null_at_behind : (types : List MySqlTypeInfo) (i : ℕ) → length types ≤ i → null_at types i ≡ 0
null_at_behind [] i h = refl
null_at_behind (t ∷ types) zero h = absurd (omega arith)
null_at_behind (t ∷ types) (suc i) h = null_at_behind types i (omega arith)

resize-padded :
    (n : ℕ) (bs : Bytes) → length bs ≤ n → resize n bs ≡ bs ++ replicate (n - length bs) 0
unfolding resize
resize-padded n bs h = rw (take_all n bs h)

resize-byte_at :
    (n : ℕ) (bs : Bytes) (j : ℕ) → length bs ≤ n → byte_at (resize n bs) j ≡ byte_at bs j
resize-byte_at n bs j h = rw (resize-padded n bs h) (byte_at-padded bs (n - length bs) j)

length-resize : (n : ℕ) (bs : Bytes) → length bs ≤ n → length (resize n bs) ≡ n
length-resize n bs h = rw (resize-padded n bs h) (
    omega (
      arith,
      length-append bs (replicate (n - length bs) 0),
      length-replicate {A = ℕ} (n - length bs) 0,
    ))

resize-IsByte : (n : ℕ) (bs : Bytes) → length bs ≤ n → All IsByte bs → All IsByte (resize n bs)
resize-IsByte n bs h all =
    rw (resize-padded n bs h)
      (All-append IsByte bs (replicate (n - length bs) 0) all (replicate-IsByte (n - length bs)))

-- The write of one bit, within the bitmap.
or_at_lem :
    (bs : Bytes) (i k : ℕ)
    → i < length bs
    → or_at bs i (2 ^ k) ≡ ok (set bs i (bit_or (byte_at bs i) (2 ^ k)))
unfolding or_at
or_at_lem bs i k h = rw (or_at, get_elem-byte_at bs i h) refl

-- After it, the bit at that place is set, and the others are as before.
bit_at-mark :
    (bs : Bytes) (n i : ℕ)
    → All IsByte bs
    → n / 8 < length bs
    → bit_at (set bs (n / 8) (bit_or (byte_at bs (n / 8)) (2 ^ (n % 8)))) i
      ≡ (if n == i then 1 else bit_at bs i)
bit_at-mark bs n i all h =
    let b = byte_at bs (n / 8) in
    let e = byte_at-set bs (n / 8) (i / 8) (bit_or b (2 ^ (n % 8))) h in
    let m =
      bit_of-bit_or b (n % 8) (i % 8) (byte_at-IsByte bs (n / 8) all) (omega arith) (omega arith) in
    ground (arith, e, m)

-- An argument that is written is added behind the others: its bytes and its type are the last, and the
-- bitmap again has a byte for each eight arguments, in which exactly the bits of type NULL are set.
pub add-MarksNulls :
    (self : MySqlArguments) (arg : Argument) (values : Bytes)
    → MarksNulls self
    → arg.encode self.values ≡ ok values
    → (more : MySqlArguments) × (add self arg ≡ ok more)
      × (more.values ≡ values)
      × (more.types ≡ self.types ++ arg.type_info ∷ [])
      × MarksNulls more
unfolding add
add-MarksNulls self arg values h e =
    let index = length self.types in
    let bitmap = resize (index / 8 + 1) self.null_bitmap in
    let types = self.types ++ arg.type_info ∷ [] in
    let fits : length self.null_bitmap ≤ index / 8 + 1 = omega (arith, h.size) in
    let size = length-resize (index / 8 + 1) self.null_bitmap fits in
    let bytes = resize-IsByte (index / 8 + 1) self.null_bitmap fits h.bytes in
    let kept : (i : ℕ) → bit_at bitmap i ≡ null_at self.types i = λ i.
      ap (λ b. bit_of b (i % 8)) (resize-byte_at (index / 8 + 1) self.null_bitmap (i / 8) fits)
      ∙ h.marks i in
    let marked = set bitmap (index / 8) (bit_or (byte_at bitmap (index / 8)) (2 ^ (index % 8))) in
    elim (Bool-cases (is_null arg.type_info)) [
      | inl null ↦ (
        record { values = values; types = types; null_bitmap = marked },
        rw (add, e, null, or_at_lem bitmap (index / 8) (index % 8) (omega (arith, size))) refl,
        refl,
        refl,
        record {
          size = omega (
            arith,
            length-set bitmap (index / 8) (bit_or (byte_at bitmap (index / 8)) (2 ^ (index % 8))),
            size,
            length-append self.types (arg.type_info ∷ []),
          );
          bytes =
              set-IsByte bitmap (index / 8) (bit_or (byte_at bitmap (index / 8)) (2 ^ (index % 8)))
                bytes
                (bit_or-lt (byte_at bitmap (index / 8)) (index % 8)
                  (byte_at-IsByte bitmap (index / 8) bytes) (omega arith));
          marks = λ i.
              bit_at-mark bitmap index i bytes (omega (arith, size))
              ∙ (rw (kept i, null_at-push self.types arg.type_info i, null) refl);
        },
      )
      | inr value ↦ (
        record { values = values; types = types; null_bitmap = bitmap },
        rw (add, e, value) refl,
        refl,
        refl,
        record {
          size = omega (arith, size, length-append self.types (arg.type_info ∷ []));
          bytes = bytes;
          marks = λ i.
              kept i
              ∙ (rw (null_at-push self.types arg.type_info i, value)
                  (ground (arith, null_at_behind self.types i)));
        },
      )
    ]

no_mark : (k : ℕ) → bit_of 0 k ≡ 0
no_mark k = rw (zero-div (2 ^ k)) refl

pub empty-MarksNulls : MarksNulls empty
empty-MarksNulls = record { size = refl; bytes = tt; marks = λ i. no_mark (i % 8) }

-- An argument that writes these bytes at the end of a buffer.
pub record Writes (arg : Argument) (bytes : Bytes) : Type 0 where
  pub written : (buf : Bytes) → arg.encode buf ≡ ok (buf ++ bytes)

abbrev pub types_of : List Argument → List MySqlTypeInfo
types_of args = map (λ arg. arg.type_info) args

abbrev pub column_types_of : List Argument → List ColumnType
column_types_of args = map (λ arg. arg.type_info.type) args

abbrev pub put_front :
    ColumnType → Option (List ColumnType × Bytes) → Option (List ColumnType × Bytes)
put_front ty none = none
put_front ty (some (types, bs)) = some (ty ∷ types, bs)

abbrev pub put_known :
    Outcome ColumnType → Option (List ColumnType × Bytes) → Option (List ColumnType × Bytes)
put_known (ok ty) more = put_front ty more
put_known _ more = none

-- A server's reader of that many types: each is the byte of its number and a byte of flags, which are
-- clear for a signed type. The types and what stands behind them, the values, are given back.
unfoldable pub read_types : ℕ → Bytes → Option (List ColumnType × Bytes)
unfolding try_from_u16
read_types zero bs = some ([], bs)
read_types (suc n) (id ∷ flags ∷ bs) =
    if flags == 0 then put_known (try_from_u16 id) (read_types n bs) else none
read_types (suc n) _ = none

read_types-type_bytes :
    (args : List Argument) (rest : Bytes)
    → read_types (length args) (type_bytes (types_of args) ++ rest)
      ≡ some (column_types_of args, rest)
unfolding read_types type_bytes
read_types-type_bytes [] rest = refl
read_types-type_bytes (arg ∷ args) rest =
    rw
      (
        (try_from_u16-type_id (type_id arg.type_info.type) arg.type_info.type).1 refl,
        read_types-type_bytes args rest,
      )
      refl

execute_arguments_lem :
    (arguments : MySqlArguments) (ty : MySqlTypeInfo) (types : List MySqlTypeInfo)
    → arguments.types ≡ ty ∷ types
    → execute_arguments arguments
      ≡ arguments.null_bitmap ++ (1 ∷ (type_bytes (ty ∷ types) ++ arguments.values))
unfolding execute_arguments
execute_arguments_lem arguments ty types e =
    ap (λ all. execute_arguments (record arguments { types = all })) e

length-types_of : (args : List Argument) → length (types_of args) ≡ length args
length-types_of [] = refl
length-types_of (arg ∷ args) = ap suc (length-types_of args)

-- The command, the number of the statement, no flags, and one iteration.
abbrev pub execute_head : ℕ → Bytes
execute_head id = 0x17 ∷ (le_bytes 4 id ++ (0 ∷ le_bytes 4 1))

encode_execute-append :
    (self : Execute) (buf : Bytes)
    → encode_execute self buf
      ≡ buf ++ (execute_head self.statement_id ++ execute_arguments self.arguments)
unfolding encode_execute
encode_execute-append self buf = simp (append_assoc)

module _ (bytes_of : Argument → Bytes) where
  abbrev pub WritesIts : Argument → Type 0
  WritesIts arg = Writes arg (bytes_of arg)

  abbrev pub values_of : List Argument → Bytes
  values_of [] = []
  values_of (arg ∷ args) = bytes_of arg ++ values_of args

  add_all-MarksNulls :
      (self : MySqlArguments) (args : List Argument)
      → MarksNulls self
      → All WritesIts args
      → (more : MySqlArguments) × (add_all self args ≡ ok more)
        × (more.values ≡ self.values ++ values_of args)
        × (more.types ≡ self.types ++ types_of args)
        × MarksNulls more
  unfolding add_all
  add_all-MarksNulls self [] h w =
      (self, refl, sym (append-nil self.values), sym (append-nil self.types), h)
  add_all-MarksNulls self (arg ∷ args) h (w, ws) =
      let (next, e, v, t, m) =
        add-MarksNulls self arg (self.values ++ bytes_of arg) h (w.written self.values) in
      let (more, e', v', t', m') = add_all-MarksNulls next args m ws in
      (
        more,
        (rw (add_all, e) e'),
        v'
            ∙ ap (λ x. x ++ values_of args) v
            ∙ append_assoc self.values (bytes_of arg) (values_of args),
        t'
            ∙ ap (λ x. x ++ types_of args) t
            ∙ append_assoc self.types (arg.type_info ∷ []) (types_of args),
        m',
      )

  -- Arguments that are each written are collected: their bytes and their types in order, and a bitmap
  -- with a byte for each eight of them, in which exactly the bits of those of type NULL are set.
  pub from_args-MarksNulls :
      (args : List Argument)
      → All WritesIts args
      → (more : MySqlArguments) × (from_args args ≡ ok more)
        × (more.values ≡ values_of args)
        × (more.types ≡ types_of args)
        × MarksNulls more
  unfolding from_args
  from_args-MarksNulls args w = (add_all-MarksNulls empty args empty-MarksNulls w)

  -- The packet that executes a statement with at least one argument, each of which is written, is the
  -- command, the number of the statement, no flags, one iteration, a bitmap of a byte for each eight
  -- arguments with a bit for each argument of type NULL, the mark that the types follow, and what a server reads as the types
  -- of the arguments, signed, with their values behind.
  pub encode_execute-from_args :
      (id : ℕ) (buf : Bytes) (arg : Argument) (args : List Argument)
      → All WritesIts (arg ∷ args)
      → (arguments : MySqlArguments) × (sent : Bytes) × (from_args (arg ∷ args) ≡ ok arguments)
        × (encode_execute (record { statement_id = id; arguments = arguments }) buf
            ≡ buf ++ (execute_head id ++ (arguments.null_bitmap ++ (1 ∷ sent))))
        × (read_types (length (arg ∷ args)) sent
            ≡ some (column_types_of (arg ∷ args), values_of (arg ∷ args)))
        × (length arguments.null_bitmap ≡ (length args + 8) / 8)
        × ((i : ℕ) → bit_at arguments.null_bitmap i ≡ null_at (types_of (arg ∷ args)) i)
  encode_execute-from_args id buf arg args w =
      let (arguments, e, v, t, m) = from_args-MarksNulls (arg ∷ args) w in
      (
        arguments,
        type_bytes (types_of (arg ∷ args)) ++ values_of (arg ∷ args),
        e,
        encode_execute-append (record { statement_id = id; arguments = arguments }) buf
            ∙ (rw (execute_arguments_lem arguments arg.type_info (types_of args) t, v) refl),
        read_types-type_bytes (arg ∷ args) (values_of (arg ∷ args)),
        (rw t at m.size) ∙ omega (arith, length-types_of args),
        (λ i. m.marks i ∙ (rw t refl)),
      )
