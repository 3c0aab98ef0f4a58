-- ===== src/Multi/Arrays.antt =====
-- What the arrays of `connection_zk::commit` hold for an operation, and how they grow
-- (src/zk/connection_zk.cpp).
use zookeeper_cpp.Base.{ℕ, ◌+◌, some, ◌≡◌, arith, length, get_elem?}
use zookeeper_cpp.Zk.Adaptors.{to_int}
use zookeeper_cpp.Multi.Op.{Op, check_op, create_op, erase_op, set_op}
use zookeeper_cpp.Multi.Commit.{
  zoo_check_op, zoo_create_op, zoo_delete_op, zoo_set_op, Encoder, path_buffer_size,
}
use zookeeper_cpp.Multi.Slices.{Keeps, HoldsRules, Keeps-HoldsRules}

-- What the arrays hold for the operation at a place: the call that fills its `zoo_op`; for a create, an
-- ACL with as many elements as it has rules, which are its rules' encodings in order, and a path buffer
-- of its own of the size that the call names; for a set, a stat of its own.
abbrev pub Describes : Encoder → ℕ → Op → Type 0
Describes s i (check_op x) = get_elem? s.raw_ops i ≡ some (zoo_check_op x.path x.check.value)
Describes s i (create_op x) =
    (j : ℕ) × (off : ℕ) × (get_elem? s.raw_ops i
      ≡ some (
          zoo_create_op x.path x.contents (to_int (length x.contents)) j (to_int x.mode) i
            (to_int (path_buffer_size x.path x.mode))))
    × (get_elem? s.encoded_acls j ≡ some (to_int (length x.rules), off))
    × HoldsRules s.acl_pieces off x.rules
    × (get_elem? s.path_buffers j ≡ some (i, path_buffer_size x.path x.mode))
Describes s i (erase_op x) = get_elem? s.raw_ops i ≡ some (zoo_delete_op x.path x.check.value)
Describes s i (set_op x) =
    (get_elem? s.raw_ops i
      ≡ some (zoo_set_op x.path x.contents (to_int (length x.contents)) x.check.value i))
    × (k : ℕ) × (get_elem? s.raw_stats k ≡ some i)

-- The arrays after some rounds: what was there is there, and so much more.
pub record Grows (s t : Encoder) (ops creates pieces : ℕ) : Type 0 where
  pub keeps_ops : Keeps s.raw_ops t.raw_ops
  pub keeps_acls : Keeps s.encoded_acls t.encoded_acls
  pub keeps_pieces : Keeps s.acl_pieces t.acl_pieces
  pub keeps_buffers : Keeps s.path_buffers t.path_buffers
  pub keeps_stats : Keeps s.raw_stats t.raw_stats
  pub ops_length : length t.raw_ops ≡ length s.raw_ops + ops
  pub acls_length : length t.encoded_acls ≡ length s.encoded_acls + creates
  pub pieces_length : length t.acl_pieces ≡ length s.acl_pieces + pieces
  pub buffers_length : length t.path_buffers ≡ length s.path_buffers + creates

pub Grows-Describes :
    {s t : Encoder} {ops creates pieces : ℕ} (i : ℕ) (op : Op)
    → Grows s t ops creates pieces
    → Describes s i op
    → Describes t i op
Grows-Describes i (check_op x) g d = g.keeps_ops i _ d
Grows-Describes {s} {t} i (create_op x) g (j, off, a, b, c, d) = (
  j,
  off,
  g.keeps_ops i _ a,
  g.keeps_acls j _ b,
  Keeps-HoldsRules s.acl_pieces t.acl_pieces off x.rules g.keeps_pieces c,
  g.keeps_buffers j _ d,
)
Grows-Describes i (erase_op x) g d = g.keeps_ops i _ d
Grows-Describes i (set_op x) g (a, k, b) = (g.keeps_ops i _ a, k, g.keeps_stats k _ b)

pub Grows-trans :
    {s t u : Encoder} {ops1 creates1 pieces1 ops2 creates2 pieces2 ops creates pieces : ℕ}
    → Grows s t ops1 creates1 pieces1
    → Grows t u ops2 creates2 pieces2
    → ops ≡ ops1 + ops2
    → creates ≡ creates1 + creates2
    → pieces ≡ pieces1 + pieces2
    → Grows s u ops creates pieces
Grows-trans g h a b c = record {
  keeps_ops = λ i x e. h.keeps_ops i x (g.keeps_ops i x e);
  keeps_acls = λ i x e. h.keeps_acls i x (g.keeps_acls i x e);
  keeps_pieces = λ i x e. h.keeps_pieces i x (g.keeps_pieces i x e);
  keeps_buffers = λ i x e. h.keeps_buffers i x (g.keeps_buffers i x e);
  keeps_stats = λ i x e. h.keeps_stats i x (g.keeps_stats i x e);
  ops_length = omega (arith, g.ops_length, h.ops_length, a);
  acls_length = omega (arith, g.acls_length, h.acls_length, b);
  pieces_length = omega (arith, g.pieces_length, h.pieces_length, c);
  buffers_length = omega (arith, g.buffers_length, h.buffers_length, b);
}
