-- ===== src/Hnsw/NodesRead.antt =====
-- What the decoder has read when it accepts a node.
use focal_vector.Base.{
  ℕ, zero, suc, ◌+◌, ◌-◌, ◌≡◌, refl, ap, sym, ◌∙◌, subst, Bool, true, false, ◌||◌, List, [], ◌∷◌,
  ◌++◌, length, length-append, ltb, ◌==◌, is_empty, All-append, arith, inl, inr,
}
use focal_vector.Outcome.{Message, ok, err, Result-cases}
use focal_vector.Str.{Str, str_cmp, str_cmp-IsLawful}
use focal_vector.Float.{FloatOps}
use focal_vector.Map.{contains}
use focal_vector.Map.Sets.{contains_eq}
use focal_vector.Map.Distinct.{distinct, distinct-append}
use focal_vector.Codec.Decoder.{Decoder, Reader, pure, fail, ◌>>=◌}
use focal_vector.Hnsw.{HnswConfig, max_level}
use focal_vector.Hnsw.Vectors.{QuantOps, VectorStorage, VectorArena, PreparedVector, push}
use focal_vector.Hnsw.Graph.{Node}
use focal_vector.Hnsw.Packed.{HasLayers}
use focal_vector.Hnsw.Decoder.{
  refuse_if, string, usize, decode_vector, decode_layer, decode_layers, decode_node, decode_nodes,
}

-- A chain of reads that succeeds.
pub bind-ok {ℓ} :
    {A B : Type ℓ} (m : Reader A) (f : A → Reader B) (d : Decoder) {out : B × Decoder}
    → (m >>= f) d ≡ ok out
    → (a : A) × (d' : Decoder) × (m d ≡ ok (a, d')) × (f a d' ≡ ok out)
unfolding ◌>>=◌
bind-ok m f d h = elim (Result-cases (m d)) [
  | inl ((a, d'), e) ↦
      (a, d', e, sym (ap (λ r. elim r [ ok (x, d'') ↦ f x d'' | err why ↦ err why ]) e) ∙ h)
  | inr (why, e) ↦
      let refused : err why ≡ ok _ =
        sym (ap (λ r. elim r [ ok (x, d'') ↦ f x d'' | err w ↦ err w ]) e) ∙ h in
      absurd cc
]

pub refuse_if-ok :
    (b : Bool) (m : Message) (d d' : Decoder)
    → refuse_if b m d ≡ ok (tt, d')
    → (b ≡ false) × (d ≡ d')
unfolding refuse_if pure fail
refuse_if-ok true m d d' h = cc
refuse_if-ok false m d d' h = (refl, cc)

pub pure-ok {ℓ} : {A : Type ℓ} (a b : A) (d d' : Decoder) → pure a d ≡ ok (b, d') → a ≡ b
unfolding pure
pure-ok a b d d' h = cc

decode_layers-length :
    (left : ℕ) (fl : FloatOps) (qo : QuantOps) (config : HnswConfig) (layer : ℕ) (d d' : Decoder)
    (xs : List (List ℕ))
    → decode_layers fl qo config layer left d ≡ ok (xs, d')
    → length xs ≡ left
unfolding decode_layers
decode_layers-length zero fl qo config layer d d' xs h = ap length (sym (pure-ok [] xs d d' h))
decode_layers-length (suc left) fl qo config layer d d' xs h =
    let (links, d1, e1, h1) = bind-ok (decode_layer fl qo config layer) _ d h in
    let (rest, d2, e2, h2) = bind-ok (decode_layers fl qo config (suc layer) left) _ d1 h1 in
    ap length (sym (pure-ok (links ∷ rest) xs d2 d' h2))
    ∙ ap suc (decode_layers-length left fl qo config (suc layer) d1 d2 rest e2)

-- A node that is read: a new ID, and a list of links for each layer up to its level.
record IsRead (seen : List Str) (out : Str × PreparedVector × Node) : Type 0 where
  fresh : contains str_cmp out.0 seen ≡ false
  layers : length out.2.neighbors ≡ suc out.2.level

-- The nodes read so far.
pub record AreRead (nodes : List Node) (ids : List Str) : Type 0 where
  pub layers : HasLayers nodes
  pub different : distinct str_cmp ids ≡ true
  pub count : length ids ≡ length nodes

more_AreRead :
    (nodes : List Node) (ids : List Str) (out : Str × PreparedVector × Node)
    → AreRead nodes ids
    → IsRead ids out
    → AreRead (nodes ++ out.2 ∷ []) (ids ++ out.0 ∷ [])
unfolding contains
more_AreRead nodes ids out r n = record {
  layers = All-append _ nodes (out.2 ∷ []) r.layers (n.layers, tt);
  different =
      distinct-append str_cmp-IsLawful ids (out.0 ∷ []) r.different refl
        (λ k m. ground (arith, m, n.fresh, contains_eq str_cmp-IsLawful k out.0 ids));
  count = omega (arith, length-append nodes (out.2 ∷ []), length-append ids (out.0 ∷ []), r.count);
}

module _ (fl : FloatOps) (qo : QuantOps) where
  decode_node-IsRead :
      (config : HnswConfig) (storage : VectorStorage) (dimension : ℕ) (seen : List Str)
      (d d' : Decoder) (out : Str × PreparedVector × Node)
      → decode_node fl qo config storage dimension seen d ≡ ok (out, d')
      → IsRead seen out
  unfolding decode_node
  decode_node-IsRead config storage dimension seen d d' out h =
      let (id, d1, e1, h1) = bind-ok string _ d h in
      let (c2, d2, e2, h2) =
        bind-ok (refuse_if (is_empty id || contains str_cmp id seen) _) _ d1 h1 in
      let (v, d3, e3, h3) = bind-ok (decode_vector fl qo storage dimension) _ d2 h2 in
      let (count, d4, e4, h4) = bind-ok usize _ d3 h3 in
      let (c5, d5, e5, h5) =
        bind-ok (refuse_if (count == 0 || ltb (max_level + 1) count) _) _ d4 h4 in
      let (layers, d6, e6, h6) = bind-ok (decode_layers fl qo config 0 count) _ d5 h5 in
      let fresh = (refuse_if-ok (is_empty id || contains str_cmp id seen) _ d1 d2 e2).0 in
      let some_layer = (refuse_if-ok (count == 0 || ltb (max_level + 1) count) _ d4 d5 e5).0 in
      subst (IsRead seen)
        (pure-ok (id, v, record { level = count - 1; range_start = 0; neighbors = layers }) out d6
          d' h6)
        (record {
          fresh = ground (arith, fresh);
          layers =
              ground (arith, some_layer, decode_layers-length count fl qo config 0 d5 d6 layers e6);
        })

  pub decode_nodes-AreRead :
      (left : ℕ) (config : HnswConfig) (storage : VectorStorage) (dimension : ℕ) (nodes : List Node)
      (ids : List Str) (vectors : VectorArena) (d d' : Decoder)
      (out : List Node × List Str × VectorArena)
      → AreRead nodes ids
      → decode_nodes fl qo config storage dimension left (nodes, ids, vectors) d ≡ ok (out, d')
      → AreRead out.0 out.1 × (length out.0 ≡ length nodes + left)
  unfolding decode_nodes
  decode_nodes-AreRead zero config storage dimension nodes ids vectors d d' out r h =
      subst (λ x. AreRead x.0 x.1 × (length x.0 ≡ length nodes + zero))
        (pure-ok (nodes, ids, vectors) out d d' h) (r, omega arith)
  decode_nodes-AreRead (suc left) config storage dimension nodes ids vectors d d' out r h =
      let (node, d1, e1, h1) = bind-ok (decode_node fl qo config storage dimension ids) _ d h in
      let n = decode_node-IsRead config storage dimension ids d d1 node e1 in
      let (read, count) =
        decode_nodes-AreRead left config storage dimension (nodes ++ node.2 ∷ [])
          (ids ++ node.0 ∷ []) (push vectors node.1) d1 d' out (more_AreRead nodes ids node r n)
          h1 in
      (read, omega (arith, count, length-append nodes (node.2 ∷ [])))
