-- ===== src/Multi/Encode.antt =====
-- What `connection_zk::commit` hands to the C library describes the transaction.
use zookeeper_cpp.Base.{
  ℕ, ℤ, suc, ◌+◌, ◌≤◌, List, [], ◌∷◌, ◌++◌, some, ◌≡◌, refl, subst, arith, length, get_elem?,
  get_elem?-concat_self,
}
use zookeeper_cpp.Zk.Adaptors.{to_int}
use zookeeper_cpp.Multi.Op.{Op, check_op, create_op, erase_op, set_op}
use zookeeper_cpp.Multi.Commit.{
  RawOp, zoo_create_op, zoo_set_op, Encoder, start, create_op_count, acl_piece_count,
  path_buffer_size, encode_op, encode_ops, encode,
}
use zookeeper_cpp.Multi.Slices.{Keeps-concat, length-concat, put_lem, put_rules_lem}
use zookeeper_cpp.Multi.Arrays.{Describes, Grows, Grows-Describes, Grows-trans}

-- The room that an operation needs, and the arrays before its round.
record HasRoom (creates pieces idx : ℕ) (txn : List Op) (s : Encoder) : Type 0 where
  acls_fit : length s.encoded_acls + create_op_count txn ≤ creates
  pieces_fit : length s.acl_pieces + acl_piece_count txn ≤ pieces
  at_idx : length s.raw_ops ≡ idx
  one_buffer : length s.path_buffers ≡ length s.encoded_acls

-- A round that only adds a `zoo_op`, and maybe a stat.
plain_Grows :
    (s : Encoder) (raw : RawOp) → Grows s (record s { raw_ops = s.raw_ops ++ raw ∷ [] }) 1 0 0
plain_Grows s raw = record {
  keeps_ops = Keeps-concat s.raw_ops raw;
  keeps_acls = λ i x e. e;
  keeps_pieces = λ i x e. e;
  keeps_buffers = λ i x e. e;
  keeps_stats = λ i x e. e;
  ops_length = length-concat s.raw_ops raw;
  acls_length = omega arith;
  pieces_length = omega arith;
  buffers_length = omega arith;
}

last_op :
    (raws : List RawOp) (raw : RawOp) (i : ℕ)
    → length raws ≡ i
    → get_elem? (raws ++ raw ∷ []) i ≡ some raw
last_op raws raw i e =
    subst (λ n. get_elem? (raws ++ raw ∷ []) n ≡ some raw) e (get_elem?-concat_self raws raw)

encode_op_lem :
    (creates pieces idx : ℕ) (op : Op) (s : Encoder)
    → HasRoom creates pieces idx (op ∷ []) s
    → (t : Encoder) × (encode_op creates pieces idx op s ≡ some t)
      × Grows s t 1 (create_op_count (op ∷ [])) (acl_piece_count (op ∷ []))
      × Describes t idx op
unfolding encode_op create_op_count acl_piece_count
encode_op_lem creates pieces idx (check_op x) s v =
    (_, refl, plain_Grows s _, last_op s.raw_ops _ idx v.at_idx)
encode_op_lem creates pieces idx (create_op x) s v =
    let header : ℤ × ℕ = (to_int (length x.rules), length s.acl_pieces) in
    let (out, e, n, keeps, holds) =
      put_rules_lem pieces s.acl_pieces x.rules (omega (arith, v.pieces_fit)) in
    let raw : RawOp =
      zoo_create_op x.path x.contents (to_int (length x.contents)) (length s.encoded_acls)
        (to_int x.mode) idx (to_int (path_buffer_size x.path x.mode)) in
    let buffer : ℕ × ℕ = (idx, path_buffer_size x.path x.mode) in
    (
      record s {
        raw_ops = s.raw_ops ++ raw ∷ [];
        encoded_acls = s.encoded_acls ++ header ∷ [];
        acl_pieces = out;
        path_buffers = s.path_buffers ++ buffer ∷ [];
      },
      rw (put_lem creates s.encoded_acls header (omega (arith, v.acls_fit)), e) refl,
      record {
        keeps_ops = Keeps-concat s.raw_ops raw;
        keeps_acls = Keeps-concat s.encoded_acls header;
        keeps_pieces = keeps;
        keeps_buffers = Keeps-concat s.path_buffers buffer;
        keeps_stats = λ i a f. f;
        ops_length = length-concat s.raw_ops raw;
        acls_length = length-concat s.encoded_acls header;
        pieces_length = omega (arith, n);
        buffers_length = length-concat s.path_buffers buffer;
      },
      (
        length s.encoded_acls,
        length s.acl_pieces,
        last_op s.raw_ops raw idx v.at_idx,
        get_elem?-concat_self s.encoded_acls header,
        holds,
        subst (λ j. get_elem? (s.path_buffers ++ buffer ∷ []) j ≡ some buffer) v.one_buffer
            (get_elem?-concat_self s.path_buffers buffer),
      ),
    )
encode_op_lem creates pieces idx (erase_op x) s v =
    (_, refl, plain_Grows s _, last_op s.raw_ops _ idx v.at_idx)
encode_op_lem creates pieces idx (set_op x) s v =
    let g =
      plain_Grows s (zoo_set_op x.path x.contents (to_int (length x.contents)) x.check.value idx) in
    (
      _,
      refl,
      record {
        keeps_ops = g.keeps_ops;
        keeps_acls = g.keeps_acls;
        keeps_pieces = g.keeps_pieces;
        keeps_buffers = g.keeps_buffers;
        keeps_stats = Keeps-concat s.raw_stats idx;
        ops_length = g.ops_length;
        acls_length = g.acls_length;
        pieces_length = g.pieces_length;
        buffers_length = g.buffers_length;
      },
      (last_op s.raw_ops _ idx v.at_idx, length s.raw_stats, get_elem?-concat_self s.raw_stats idx),
    )

count_cons :
    (op : Op) (txn : List Op)
    → (create_op_count (op ∷ txn) ≡ create_op_count (op ∷ []) + create_op_count txn)
      × (acl_piece_count (op ∷ txn) ≡ acl_piece_count (op ∷ []) + acl_piece_count txn)
unfolding create_op_count acl_piece_count
count_cons (check_op x) txn = (omega arith, omega arith)
count_cons (create_op x) txn = (omega arith, omega arith)
count_cons (erase_op x) txn = (omega arith, omega arith)
count_cons (set_op x) txn = (omega arith, omega arith)

nothing_Grows : (s : Encoder) → Grows s s 0 0 0
nothing_Grows s = record {
  keeps_ops = λ i x e. e;
  keeps_acls = λ i x e. e;
  keeps_pieces = λ i x e. e;
  keeps_buffers = λ i x e. e;
  keeps_stats = λ i x e. e;
  ops_length = omega arith;
  acls_length = omega arith;
  pieces_length = omega arith;
  buffers_length = omega arith;
}

-- What the arrays hold for each operation from a place on.
abbrev pub DescribesAll : Encoder → ℕ → List Op → Type 0
DescribesAll s i [] = Unit
DescribesAll s i (op ∷ txn) = Describes s i op × DescribesAll s (suc i) txn

encode_ops_lem :
    (creates pieces idx : ℕ) (txn : List Op) (s : Encoder)
    → HasRoom creates pieces idx txn s
    → (t : Encoder) × (encode_ops creates pieces idx txn s ≡ some t)
      × Grows s t (length txn) (create_op_count txn) (acl_piece_count txn)
      × DescribesAll t idx txn
unfolding encode_ops create_op_count acl_piece_count
encode_ops_lem creates pieces idx [] s v = (s, refl, nothing_Grows s, tt)
encode_ops_lem creates pieces idx (op ∷ txn) s v =
    let (count_c, count_p) = count_cons op txn in
    let (t, e, g, d) = encode_op_lem creates pieces idx op s (record {
      acls_fit = omega (arith, v.acls_fit, count_c);
      pieces_fit = omega (arith, v.pieces_fit, count_p);
      at_idx = v.at_idx;
      one_buffer = v.one_buffer;
    }) in
    let (u, f, h, ds) = encode_ops_lem creates pieces (suc idx) txn t (record {
      acls_fit = omega (arith, v.acls_fit, count_c, g.acls_length);
      pieces_fit = omega (arith, v.pieces_fit, count_p, g.pieces_length);
      at_idx = omega (arith, v.at_idx, g.ops_length);
      one_buffer = omega (arith, v.one_buffer, g.buffers_length, g.acls_length);
    }) in
    (
      u,
      rw (encode_ops, e) f,
      Grows-trans g h (omega arith) count_c count_p,
      (Grows-Describes idx op h d, ds),
    )

-- For every transaction `commit` fills its arrays within the sizes that it counted, and wholly: no write
-- is past an end, there is one `zoo_op` for each operation, an ACL and a path buffer for each create, and
-- as many pieces as the creates have rules; and what stands at each operation's place describes that
-- operation, with every rule of a create's ACL in the slice that its `ACL_vector` names.
pub encode-Describes :
    (txn : List Op)
    → (s : Encoder) × (encode txn ≡ some s)
      × (length s.raw_ops ≡ length txn)
      × (length s.encoded_acls ≡ create_op_count txn)
      × (length s.acl_pieces ≡ acl_piece_count txn)
      × DescribesAll s 0 txn
unfolding encode
encode-Describes txn =
    let (s, e, g, d) =
      encode_ops_lem (create_op_count txn) (acl_piece_count txn) 0 txn start (record {
        acls_fit = omega arith;
        pieces_fit = omega arith;
        at_idx = refl;
        one_buffer = refl;
      }) in
    (
      s,
      e,
      omega (arith, g.ops_length),
      omega (arith, g.acls_length),
      omega (arith, g.pieces_length),
      d,
    )
