-- ===== src/Txn.antt =====
-- flow/verilator/memory_txns.hpp: requests and responses on the memory bus.
pub mod Word
use scarv_cpu.Base.{
  ℕ, zero, suc, ◌+◌, ◌*◌, ◌^◌, ◌≡◌, Bool, true, false, not, ◌&&◌, List, [], bit_or, ltb, get_or,
  length, replicate, u32, if◌then◌else◌,
}

-- `memory_txn`. The arrays `_data` and `_strb` are lists of `_size` bytes and bits.
pub record Txn : Type 0 where
  pub id : ℕ
  pub addr : ℕ
  pub size : ℕ
  pub write : Bool
  pub bytes : List ℕ
  pub strb : List Bool

-- The constructor: it draws the next identifier, clears the data, and sets every strobe.
unfoldable pub new_txn : ℕ → ℕ → ℕ → Bool → Txn
new_txn next_id addr size write = record {
  id = next_id;
  addr = addr;
  size = size;
  write = write;
  bytes = replicate size 0;
  strb = replicate size true;
}

abbrev pub is_write : Txn → Bool
is_write t = t.write

abbrev pub is_read : Txn → Bool
is_read t = not t.write

-- The loop of `data_word` with `n` rounds left, at index `i`.
data_word_from : Txn → ℕ → ℕ → ℕ → ℕ
data_word_from t zero i tr = tr
data_word_from t (suc n) i tr =
    data_word_from t n (suc i)
      (if ltb i t.size then u32 (bit_or tr (get_or t.bytes i 0 * 2 ^ (8 * i))) else tr)

-- `data_word`: the first four bytes as a little-endian word. A round whose index is past the size
-- changes nothing, as the loop has ended there.
unfoldable pub data_word : Txn → ℕ
unfolding data_word_from
data_word t = data_word_from t 4 0 0

-- `memory_rsp_txn`: a transaction like its request, the request, and the error flag.
pub record Rsp : Type 0 where
  pub txn : Txn
  pub req : Txn
  pub error : Bool

unfoldable pub new_rsp : ℕ → Txn → Bool → Rsp
unfolding new_txn
new_rsp next_id req error = record {
  txn = new_txn next_id req.addr req.size req.write;
  req = req;
  error = error;
}

unfoldable pub set_error : Rsp → Rsp
set_error rsp = record rsp { error = true }
