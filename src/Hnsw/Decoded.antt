-- ===== src/Hnsw/Decoded.antt =====
-- What the decoder accepts may be searched.
use focal_vector.Base.{
  ℕ, ◌<◌, ◌≡◌, refl, ap, sym, ◌∙◌, subst, Bool, true, false, List, [], ◌∷◌, Option, none, length,
  any, arith, inl, inr,
}
use focal_vector.Outcome.{text, corrupt_storage, Message, ok, err, Result-cases}
use focal_vector.Str.{str_cmp}
use focal_vector.Float.{FloatOps}
use focal_vector.Map.Distinct.{distinct}
use focal_vector.Codec.Decoder.{Decoder, Reader, pure, ◌>>=◌}
use focal_vector.Hnsw.{HnswConfig}
use focal_vector.Hnsw.Vectors.{QuantOps, VectorStorage, VectorArena, empty_arena}
use focal_vector.Hnsw.Walked.{holds}
use focal_vector.Hnsw.Graph.{HnswIndex, Node, len}
use focal_vector.Hnsw.Packed.{neighbors-finalize, finalize-SameBut}
use focal_vector.Hnsw.Compact.{finalize_compact_graph}
use focal_vector.Hnsw.Finished.{place_of_id}
use focal_vector.Hnsw.Search.{IsSearchable}
use focal_vector.Hnsw.Encoder.{enumerate}
use focal_vector.Hnsw.Decoder.{
  refuse_if, decode_nodes, check_entry, has_bad_link, decode_graph, decode_entry, decode,
}
use focal_vector.Hnsw.NodesRead.{bind-ok, refuse_if-ok, pure-ok, AreRead, decode_nodes-AreRead}
use focal_vector.Hnsw.LinksRead.{bad_links_closed, IsEntry, check_entry-IsEntry}

-- Whatever a read yields has the property.
record Accepts {A : Type 0} (P : A → Type 0) (r : Reader A) : Type 0 where
  holds_of : (d d' : Decoder) (a : A) → r d ≡ ok (a, d') → P a

later :
    {A B : Type 0} {P : B → Type 0} (m : Reader A) {f : A → Reader B}
    → ((a : A) → Accepts P (f a))
    → Accepts P (m >>= f)
later m {f = f} g = record {
  holds_of = λ d d' b h. let (a, d1, e, h') = bind-ok m f d h in (g a).holds_of d1 d' b h';
}

with_read :
    {A B : Type 0} {P : B → Type 0} {Q : A → Type 0} {m : Reader A} {f : A → Reader B}
    → Accepts Q m
    → ((a : A) → Q a → Accepts P (f a))
    → Accepts P (m >>= f)
with_read {m = m} {f = f} q g = record {
  holds_of = λ d d' b h.
      let (a, d1, e, h') = bind-ok m f d h in (g a (q.holds_of d d1 a e)).holds_of d1 d' b h';
}

record IsAccepted (index : HnswIndex) : Type 0 where
  read : AreRead index.nodes index.ids
  unpacked : index.compact_graph ≡ none
  entry : IsEntry index.nodes index.entry_point
  good : any (has_bad_link (length index.nodes)) (enumerate 0 index.nodes) ≡ false

refuse_if-Accepts : (b : Bool) (m : Message) → Accepts (λ _. b ≡ false) (refuse_if b m)
refuse_if-Accepts b m = record { holds_of = λ d d' a h. (refuse_if-ok b m d d' h).0 }

check_entry-Accepts :
    (nodes : List Node) (entry : Option ℕ) (top : ℕ)
    → Accepts (λ _. IsEntry nodes entry) (check_entry nodes entry top)
check_entry-Accepts nodes entry top = record {
  holds_of = λ d d' a h. check_entry-IsEntry nodes entry top d d' h;
}

pure-Accepts : {A : Type 0} {P : A → Type 0} (a : A) → P a → Accepts P (pure a)
pure-Accepts {P = P} a p = record { holds_of = λ d d' b h. subst P (pure-ok a b d d' h) p }

module _ (fl : FloatOps) (qo : QuantOps) where
  decode_nodes-Accepts :
      (left : ℕ) (config : HnswConfig) (storage : VectorStorage) (dimension : ℕ)
      (vectors : VectorArena)
      → Accepts
          (λ out. AreRead out.0 out.1 × (length out.0 ≡ left))
          (decode_nodes fl qo config storage dimension left ([], [], vectors))
  decode_nodes-Accepts left config storage dimension vectors = record {
    holds_of = λ d d' out h.
        let start : AreRead [] [] = record { layers = tt; different = refl; count = refl } in
        let (read, count) =
          decode_nodes-AreRead fl qo left config storage dimension [] [] vectors d d' out start h in
        (read, omega (arith, count));
  }

  decode_graph-IsAccepted : Accepts IsAccepted (decode_graph fl qo)
  unfolding decode_graph
  decode_graph-IsAccepted = later _ (λ magic. later _ (λ c1. later _ (λ version. later _ (λ c2.
      later _ (λ dimension. later _ (λ tag. later _ (λ metric. later _ (λ storage. later _ (λ m.
        later _ (λ ef. later _ (λ c3. later _ (λ node_count. later _ (λ c4. later _ (λ entry.
          later _ (λ top. later _ (λ c5. later _ (λ c6.
            with_read
              (decode_nodes-Accepts node_count (record { m = m; ef_construction = ef }) storage
                dimension (empty_arena storage))
              (λ out read. later _ (λ c7.
                with_read (check_entry-Accepts out.0 (decode_entry entry) top) (λ c8 entry_ok.
                  with_read
                    (refuse_if-Accepts (any (has_bad_link node_count) (enumerate 0 out.0)) _)
                    (λ c9 good. pure-Accepts _ (record {
                      read = read.0;
                      unpacked = refl;
                      entry = entry_ok;
                      good =
                          subst (λ n. any (has_bad_link n) (enumerate 0 out.0) ≡ false) (sym read.1)
                            good;
                    }))))))))))))))))))))))

accepted-IsSearchable :
    (index out : HnswIndex)
    → IsAccepted index
    → finalize_compact_graph index ≡ ok out
    → IsSearchable out
accepted-IsSearchable index out g done =
    let b = finalize-SameBut index out g.unpacked done in
    let reads = neighbors-finalize index out g.read.layers g.unpacked done in
    record {
      links_in = λ layer i j l h.
          subst (λ m. j < m) (sym b.count)
            (bad_links_closed index (length index.nodes) layer i j g.unpacked g.good
              (subst (λ xs. holds j xs ≡ true) (reads layer i) h));
      entry_in = λ entry e.
          subst (λ m. entry < m) (sym b.count) (g.entry.inside entry (sym b.same_entry ∙ e));
      own_ids = λ i j l m e.
          place_of_id out.ids i j (ap (distinct str_cmp) b.same_ids ∙ g.read.different) (in_ids l)
            (in_ids m) e;
      no_entry =
          λ e. empty out.nodes (b.count ∙ ap length (g.entry.missing (sym b.same_entry ∙ e)));
    }
  where
    in_ids : {i : ℕ} → i < len out → i < length out.ids
    in_ids l =
        let b = finalize-SameBut index out g.unpacked done in
        omega (arith, l, b.count, ap length b.same_ids, g.read.count)

    empty : (ns : List Node) → length ns ≡ 0 → ns ≡ []
    empty [] e = refl
    empty (n ∷ ns) e = absurd (omega arith)

-- An index that is decoded from any bytes is fit for searching: every link leads to a node of the index, the
-- entry is one of them unless there is none, and the IDs differ.
pub decode-IsSearchable :
    (fl : FloatOps) (qo : QuantOps) (bytes : List ℕ) (index : HnswIndex)
    → decode fl qo bytes ≡ ok index
    → IsSearchable index
unfolding decode
decode-IsSearchable fl qo bytes index h =
    elim (Result-cases (decode_graph fl qo (record { bytes = bytes; position = 0 }))) [
      | inr (why, e) ↦ let refused : decode fl qo bytes ≡ err why = rw (decode, e) refl in absurd cc
      | inl ((graph, d), e) ↦
          let g = (decode_graph-IsAccepted fl qo).holds_of _ d graph e in
          elim (Result-cases (finalize_compact_graph graph)) [
            | inl (out, done) ↦
                let whole : decode fl qo bytes ≡ ok out = rw (decode, e, done) refl in
                let same : out ≡ index = cc in
                subst IsSearchable same (accepted-IsSearchable graph out g done)
            | inr (why, failed) ↦
                let refused : decode fl qo bytes
                    ≡ err (corrupt_storage (text "could not compact decoded HNSW graph: {error}")) =
                  rw (decode, e, failed) refl in
                absurd cc
          ]
    ]
