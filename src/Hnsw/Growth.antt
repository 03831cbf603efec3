-- ===== src/Hnsw/Growth.antt =====
-- What an insertion adds to an index, and what it leaves.
use focal_vector.Base.{
  ℕ, suc, true, List, [], ◌∷◌, ◌++◌, ◌+◌, ◌^◌, ◌<◌, ◌≡◌, refl, ap, sym, ◌∙◌, subst, none, some,
  length, arith, Option-cases, inl, inr,
}
use focal_vector.Float.{FloatOps}
use focal_vector.Hnsw.Vectors.{QuantOps}
use focal_vector.Hnsw.Graph.{HnswIndex, len}
use focal_vector.Hnsw.Insert.{
  PreparedPoint, Plan, add_node, link_layers, raise_entry, apply_insertion,
}
use focal_vector.Hnsw.Sound.{has_layer}
use focal_vector.Str.{Str}
use focal_vector.Hnsw.Inserted.{
  IsGraph, has_layer_nodes, len-add_node, new_layer, added_layer, add_node-IsSound, added_IsPlanned,
}
use focal_vector.Hnsw.Linked.{IsLinkedFrom, IsPlanned, link_layers-IsLinkedFrom}

module _ (fl : FloatOps) (qo : QuantOps) where
  -- An insertion adds one node and takes no layer from another.
  pub record Grows (index later : HnswIndex) (more : List Str) : Type 0 where
    pub layers : (i l : ℕ) → has_layer index i l ≡ true → has_layer later i l ≡ true
    pub count : len later ≡ len index + length more
    pub same_ids : later.ids ≡ index.ids ++ more
    pub same_config : later.config ≡ index.config

  apply_first :
      (point : PreparedPoint) (plan : Plan) (index : HnswIndex)
      → index.entry_point ≡ none
      → apply_insertion fl qo point plan index
        ≡ record (add_node point index) { entry_point = some (len index); max_level = point.level }
  unfolding apply_insertion
  apply_first point plan index e = simp (apply_insertion, e)

  apply_later :
      (point : PreparedPoint) (plan : Plan) (index : HnswIndex) (entry : ℕ)
      → index.entry_point ≡ some entry
      → apply_insertion fl qo point plan index
        ≡ raise_entry
            (len index)
            point.level
            (link_layers fl qo (len index) 0 (add_node point index) plan)
  unfolding apply_insertion
  apply_later point plan index entry e = simp (apply_insertion, e)

  raise_nodes :
      (new_index level : ℕ) (index : HnswIndex)
      → (raise_entry new_index level index).nodes ≡ index.nodes
  unfolding raise_entry
  raise_nodes new_index level index = ground arith

  raise_config :
      (new_index level : ℕ) (index : HnswIndex)
      → (raise_entry new_index level index).config ≡ index.config
  unfolding raise_entry
  raise_config new_index level index = ground arith

  config_add_node :
      (point : PreparedPoint) (index : HnswIndex) → (add_node point index).config ≡ index.config
  unfolding add_node
  config_add_node point index = refl

  raise_ids :
      (new_index level : ℕ) (index : HnswIndex)
      → (raise_entry new_index level index).ids ≡ index.ids
  unfolding raise_entry
  raise_ids new_index level index = ground arith

  ids_add_node :
      (point : PreparedPoint) (index : HnswIndex)
      → (add_node point index).ids ≡ index.ids ++ point.id ∷ []
  unfolding add_node
  ids_add_node point index = refl

  linked :
      (point : PreparedPoint) (plan : Plan) (index : HnswIndex)
      → IsGraph index
      → point.level < 256
      → len index < 2 ^ 32
      → length plan ≡ suc point.level
      → IsPlanned fl qo index 0 plan
      → IsLinkedFrom
          (add_node point index)
          (link_layers fl qo (len index) 0 (add_node point index) plan)
  linked point plan index g small room full p =
      link_layers-IsLinkedFrom fl qo plan (len index) 0 (add_node point index)
        (omega (arith, len-add_node point index)) room
        (λ l h. new_layer point index l small (omega (arith, full, h)))
        (added_IsPlanned fl qo plan point index 0 small p)
        (add_node-IsSound point index small g.sound)

  pub apply_insertion-Grows :
      (point : PreparedPoint) (plan : Plan) (index : HnswIndex)
      → IsGraph index
      → point.level < 256
      → len index < 2 ^ 32
      → length plan ≡ suc point.level
      → IsPlanned fl qo index 0 plan
      → Grows index (apply_insertion fl qo point plan index) (point.id ∷ [])
  apply_insertion-Grows point plan index g small room full p =
      elim (Option-cases index.entry_point) [
        | inl e ↦
            subst (λ x. Grows index x (point.id ∷ [])) (sym (apply_first point plan index e))
              (record {
                layers = λ i l h.
                    has_layer_nodes _ (add_node point index) i l refl
                    ∙ added_layer point index i l small h;
                count = len-add_node point index ∙ omega arith;
                same_ids = ids_add_node point index;
                same_config = config_add_node point index;
              })
        | inr (entry, e) ↦
            let after = link_layers fl qo (len index) 0 (add_node point index) plan in
            let k = linked point plan index g small room full p in
            subst (λ x. Grows index x (point.id ∷ [])) (sym (apply_later point plan index entry e))
              (record {
                layers = λ i l h.
                    has_layer_nodes _ after i l (raise_nodes (len index) point.level after)
                    ∙ k.layers i l
                    ∙ added_layer point index i l small h;
                count =
                    ap length (raise_nodes (len index) point.level after)
                    ∙ k.count
                    ∙ len-add_node point index
                    ∙ omega arith;
                same_ids =
                    raise_ids (len index) point.level after ∙ k.same_ids ∙ ids_add_node point index;
                same_config =
                    raise_config (len index) point.level after
                    ∙ k.same_config
                    ∙ config_add_node point index;
              })
      ]
