-- ===== src/Blocklist/Types.antt =====
-- internal/blocklist/client.go: limits, results and the kinds of errors; what a response is to the
-- client.
use tdns.Base.{
  ltb, leb, if◌then◌else◌, nat_eq, Text, text_eq, if_elim, length, ℕ, zero, suc, ◌+◌, ◌≤◌, ◌≡◌,
  refl, ap, ◌⊎◌, inl, inr, Bool, Option, none, some, [], ◌∷◌, arith,
}

pub data RefreshKind : Type 0 where
  kind_invalid kind_timeout kind_too_large kind_redirect_rejected kind_remote kind_io : RefreshKind

pub record RefreshLimits : Type 0 where
  pub metadata_bytes : ℕ
  pub compressed_bytes : ℕ
  pub uncompressed_bytes : ℕ
  pub max_line_bytes : ℕ
  pub max_entries : ℕ
  pub max_redirects : ℕ

abbrev pub default_limits : RefreshLimits
default_limits = record {
  metadata_bytes = 1048576;
  compressed_bytes = 67108864;
  uncompressed_bytes = 134217728;
  max_line_bytes = 65536;
  max_entries = 2000000;
  max_redirects = 3;
}

pub record RefreshResult : Type 0 where
  pub changed : Bool
  pub revision : Text
  pub compressed_bytes : ℕ
  pub uncompressed_bytes : ℕ
  pub entries : ℕ

-- Why a stream ends early: the deadline of the context passed, or something else.
pub data Fault : Type 0 where
  deadline broken : Fault

-- What a reader gives: its bytes, and how it fails behind them, if it does.
pub record Stream : Type 0 where
  pub bytes : Text
  pub fault : Option Fault

-- A response; the length is none if it is not known.
pub record Response : Type 0 where
  pub status : ℕ
  pub content_length : Option ℕ
  pub content_encoding : Text
  pub body : Stream

unfoldable pub take : ℕ → Text → Text
take zero s = []
take (suc n) [] = []
take (suc n) (c ∷ s) = c ∷ take n s

-- `io.LimitReader`: a fault behind the limit is not met.
unfoldable pub limit_stream : ℕ → Stream → Stream
limit_stream n s = record {
  bytes = take n s.bytes;
  fault = if leb n (length s.bytes) then none else s.fault;
}

pub data ReadError : Type 0 where
  too_large : ReadError
  stream_failed : Fault → ReadError

abbrev check_read : ℕ → Text → Option Fault → Text ⊎ ReadError
check_read limit body (some fault) = inr (stream_failed fault)
check_read limit body none = if ltb limit (length body) then inr too_large else inl body

-- `readLimited`
abbrev pub read_limited : ℕ → Stream → Text ⊎ ReadError
read_limited limit s =
    let limited = limit_stream (limit + 1) s in check_read limit limited.bytes limited.fault

length-take-le : (n : ℕ) (s : Text) → length (take n s) ≤ n
unfolding take
length-take-le zero s = omega arith
length-take-le (suc n) [] = omega arith
length-take-le (suc n) (c ∷ s) = omega (arith, length-take-le n s)

take_all : (n : ℕ) (s : Text) → length s ≤ n → take n s ≡ s
unfolding take
take_all zero [] h = refl
take_all zero (c ∷ s) h = absurd (omega arith)
take_all (suc n) [] h = refl
take_all (suc n) (c ∷ s) h = ap (◌∷◌ c) (take_all n s (omega arith))

-- A text within the limit is read whole.
pub read_limited_all :
    (n : ℕ) (s : Text) → length s ≤ n → read_limited n (record { bytes = s; fault = none }) ≡ inl s
unfolding limit_stream
read_limited_all n s h = rw (take_all (n + 1) s (omega arith)) (
    if_elim {A = Option Fault} (λ f. check_read n s f ≡ inl s) (leb (n + 1) (length s)) none none
      (λ _. ground arith) (λ _. ground arith))
