-- ===== src/Resource/Nodes.antt =====
-- `processNode` of modules/resource/resource_manager.cpp: the indices of a mesh that is put together
-- from the nodes of a scene.
use mathlib.Core.Path.{subst}
use mathlib.Core.Option.{some-injective}
use esp32_particulate_sensor.Prelude.{
  get_elem?_of_lt, ◌∙◌, ap, ◌>>=◌, refl, zero, suc, ℕ, ◌+◌, ◌%◌, ◌^◌, ◌<◌, ◌≤◌, ◌≡◌, sym, none,
  some, List, [], ◌∷◌, ◌++◌, arith, length, length-append, map, get_elem?, Option-cases, inl, inr,
  get_elem?_of_lt, length-map,
}
use esp32_particulate_sensor.Resource.{
  Mesh, AiMesh, AiNode, node, AiNodes, no_nodes, more_nodes, shift_faces, append_mesh,
  append_meshes, process_node, process_nodes, empty_mesh, AiScene,
}

abbrev pub AllBelow : ℕ → List ℕ → Type 0
AllBelow n [] = Unit {0}
AllBelow n (i ∷ is) = (i < n) × AllBelow n is

abbrev pub FacesBelow : ℕ → List (List ℕ) → Type 0
FacesBelow n [] = Unit {0}
FacesBelow n (face ∷ faces) = AllBelow n face × FacesBelow n faces

-- Every index is that of a vertex.
abbrev pub InBounds : {V : Type 0} → Mesh V → Type 0
InBounds mesh = AllBelow (length mesh.vertexbuffer) mesh.index_buffer

-- The faces of every mesh are those of its own vertices.
abbrev pub FacesInBounds : {V : Type 0} → List (AiMesh V) → Type 0
FacesInBounds [] = Unit {0}
FacesInBounds (ai ∷ scene) = FacesBelow (length ai.m_vertices) ai.m_faces × FacesInBounds scene

-- The material of every mesh is one of the scene.
abbrev pub MaterialsBelow : {V : Type 0} → ℕ → List (AiMesh V) → Type 0
MaterialsBelow n [] = Unit {0}
MaterialsBelow n (ai ∷ scene) = (ai.m_material_index < n) × MaterialsBelow n scene

pub AllBelow-append :
    (n : ℕ) (xs ys : List ℕ) → AllBelow n xs → AllBelow n ys → AllBelow n (xs ++ ys)
AllBelow-append n [] ys h g = g
AllBelow-append n (x ∷ xs) ys h g = (h.0, AllBelow-append n xs ys h.1 g)

AllBelow-mono : (n m : ℕ) (xs : List ℕ) → n ≤ m → AllBelow n xs → AllBelow m xs
AllBelow-mono n m [] le h = tt
AllBelow-mono n m (x ∷ xs) le h = (omega (arith, h.0), AllBelow-mono n m xs le h.1)

shift_face-AllBelow :
    (base n : ℕ) (face : List ℕ)
    → base + n < 2 ^ 32
    → AllBelow n face
    → AllBelow (base + n) (map (λ i. (base + i) % 2 ^ 32) face)
shift_face-AllBelow base n [] room h = tt
shift_face-AllBelow base n (i ∷ face) room h =
    (omega (arith, h.0), shift_face-AllBelow base n face room h.1)

shift_faces-AllBelow :
    (base n : ℕ) (faces : List (List ℕ))
    → base + n < 2 ^ 32
    → FacesBelow n faces
    → AllBelow (base + n) (shift_faces base faces)
unfolding shift_faces
shift_faces-AllBelow base n [] room h = tt
shift_faces-AllBelow base n (face ∷ faces) room h =
    AllBelow-append (base + n) (map (λ i. (base + i) % 2 ^ 32) face) (shift_faces base faces)
      (shift_face-AllBelow base n face room h.0) (shift_faces-AllBelow base n faces room h.1)

module _ {V : Type 0} where
  FacesInBounds-at :
      (scene : List (AiMesh V)) (k : ℕ) (ai : AiMesh V)
      → FacesInBounds scene
      → get_elem? scene k ≡ some ai
      → FacesBelow (length ai.m_vertices) ai.m_faces
  FacesInBounds-at [] k ai h at = absurd (ground arith)
  FacesInBounds-at (x ∷ scene) zero ai h at =
      subst (λ a. FacesBelow (length a.m_vertices) a.m_faces) (some-injective x ai at) h.0
  FacesInBounds-at (x ∷ scene) (suc k) ai h at = FacesInBounds-at scene k ai h.1 at

  append_mesh-length :
      (mesh : Mesh V) (ai : AiMesh V) (material : V → V)
      → length (mesh.vertexbuffer ++ map material ai.m_vertices)
        ≡ length mesh.vertexbuffer + length ai.m_vertices
  append_mesh-length mesh ai material =
      length-append mesh.vertexbuffer (map material ai.m_vertices)
      ∙ ap (λ k. length mesh.vertexbuffer + k) (length-map ai.m_vertices material)

  append_mesh-InBounds :
      (mesh : Mesh V) (ai : AiMesh V) (material : V → V)
      → InBounds mesh
      → FacesBelow (length ai.m_vertices) ai.m_faces
      → length (append_mesh mesh ai material).vertexbuffer < 2 ^ 32
      → InBounds (append_mesh mesh ai material)
  unfolding append_mesh
  append_mesh-InBounds mesh ai material h faces room =
      let n = length mesh.vertexbuffer in
      let k = length ai.m_vertices in
      let size : length (mesh.vertexbuffer ++ map material ai.m_vertices) ≡ n + k =
        append_mesh-length mesh ai material in
      let base : n % 2 ^ 32 ≡ n = omega (arith, size, room) in
      subst (λ m. AllBelow m (mesh.index_buffer ++ shift_faces (n % 2 ^ 32) ai.m_faces)) (sym size)
        (subst (λ b. AllBelow (n + k) (mesh.index_buffer ++ shift_faces b ai.m_faces)) (sym base)
          (AllBelow-append (n + k) mesh.index_buffer (shift_faces n ai.m_faces)
            (AllBelow-mono n (n + k) mesh.index_buffer (omega arith) h)
            (shift_faces-AllBelow n k ai.m_faces (omega (arith, size, room)) faces)))

  -- What a step of the processing promises: vertices are only added, and the indices stay in bounds
  -- if the vertices fit a u32.
  abbrev Extends : Mesh V → Mesh V → Type 0
  Extends before after =
      (length before.vertexbuffer ≤ length after.vertexbuffer)
      × (InBounds before → length after.vertexbuffer < 2 ^ 32 → InBounds after)

  Extends-trans : (a b c : Mesh V) → Extends a b → Extends b c → Extends a c
  Extends-trans a b c f g =
      (omega (arith, f.0, g.0), λ h room. g.1 (f.1 h (omega (arith, g.0))) room)

  append_meshes-Extends :
      (scene : AiScene V) (ns : List ℕ) (mesh out : Mesh V)
      → FacesInBounds scene.m_meshes
      → append_meshes scene ns mesh ≡ some out
      → Extends mesh out
  unfolding append_meshes append_mesh
  append_meshes-Extends scene [] mesh out faces h =
      subst (λ m. Extends mesh m) (some-injective mesh out h) (omega arith, λ b room. b)
  append_meshes-Extends scene (n ∷ ns) mesh out faces h =
      elim (Option-cases (get_elem? scene.m_meshes n)) [
        | inl bad ↦ let no : none ≡ some out = rw bad at h in cc no
        | inr (ai, at) ↦ elim (Option-cases (get_elem? scene.m_materials ai.m_material_index)) [
          | inl bad ↦ let no : none ≡ some out = rw (at, ◌>>=◌, bad) at h in cc no
          | inr (material, coloured) ↦
              Extends-trans mesh (append_mesh mesh ai material) out
                (
                  omega (arith, append_mesh-length mesh ai material),
                  λ b room.
                      append_mesh-InBounds mesh ai material b
                        (FacesInBounds-at scene.m_meshes n ai faces at) room,
                )
                (append_meshes-Extends scene ns (append_mesh mesh ai material) out faces
                  (rw (at, ◌>>=◌, coloured) at h))
        ]
      ]

  mutual
    unfolding process_node

    process_node-Extends :
        (scene : AiScene V) (n : AiNode) (mesh out : Mesh V)
        → FacesInBounds scene.m_meshes
        → process_node scene n mesh ≡ some out
        → Extends mesh out
    process_node-Extends scene (node meshes children) mesh out faces h =
        elim (Option-cases (append_meshes scene meshes mesh)) [
          | inl bad ↦ let no : none ≡ some out = rw bad at h in cc no
          | inr (mid, done') ↦
              Extends-trans mesh mid out (append_meshes-Extends scene meshes mesh mid faces done')
                (process_nodes-Extends scene children mid out faces (rw done' at h))
        ]

    process_nodes-Extends :
        (scene : AiScene V) (ns : AiNodes) (mesh out : Mesh V)
        → FacesInBounds scene.m_meshes
        → process_nodes scene ns mesh ≡ some out
        → Extends mesh out
    process_nodes-Extends scene no_nodes mesh out faces h =
        subst (λ m. Extends mesh m) (some-injective mesh out h) (omega arith, λ b room. b)
    process_nodes-Extends scene (more_nodes n ns) mesh out faces h =
        elim (Option-cases (process_node scene n mesh)) [
          | inl bad ↦ let no : none ≡ some out = rw bad at h in cc no
          | inr (mid, done') ↦
              Extends-trans mesh mid out (process_node-Extends scene n mesh mid faces done')
                (process_nodes-Extends scene ns mid out faces (rw done' at h))
        ]

-- Every mesh number of a node and of those below it is one of the scene.
abbrev mutual
  pub InScene : ℕ → AiNode → Type 0
  InScene size (node meshes children) = AllBelow size meshes × AllInScene size children

  pub AllInScene : ℕ → AiNodes → Type 0
  AllInScene size no_nodes = Unit {0}
  AllInScene size (more_nodes n ns) = InScene size n × AllInScene size ns

module _ {V : Type 0} where
  material-at :
      (n : ℕ) (scene : List (AiMesh V)) (k : ℕ) (ai : AiMesh V)
      → MaterialsBelow n scene
      → get_elem? scene k ≡ some ai
      → ai.m_material_index < n
  material-at n [] k ai h at = absurd (ground arith)
  material-at n (x ∷ scene) zero ai h at =
      subst (λ a. a.m_material_index < n) (some-injective x ai at) h.0
  material-at n (x ∷ scene) (suc k) ai h at = material-at n scene k ai h.1 at

  append_meshes-total :
      (scene : AiScene V) (ns : List ℕ) (mesh : Mesh V)
      → MaterialsBelow (length scene.m_materials) scene.m_meshes
      → AllBelow (length scene.m_meshes) ns
      → (out : Mesh V) × (append_meshes scene ns mesh ≡ some out)
  unfolding append_meshes
  append_meshes-total scene [] mesh there h = (mesh, refl)
  append_meshes-total scene (n ∷ ns) mesh there h =
      let (ai, at) = get_elem?_of_lt scene.m_meshes n h.0 in
      let (material, coloured) =
        get_elem?_of_lt scene.m_materials ai.m_material_index
          (material-at (length scene.m_materials) scene.m_meshes n ai there at) in
      let rest = append_meshes-total scene ns (append_mesh mesh ai material) there h.1 in
      (rest.0, rw (at, ◌>>=◌, coloured) rest.1)

  mutual
    unfolding process_node

    process_node-total :
        (scene : AiScene V) (n : AiNode) (mesh : Mesh V)
        → MaterialsBelow (length scene.m_materials) scene.m_meshes
        → InScene (length scene.m_meshes) n
        → (out : Mesh V) × (process_node scene n mesh ≡ some out)
    process_node-total scene (node meshes children) mesh there h =
        let mid = append_meshes-total scene meshes mesh there h.0 in
        let rest = process_nodes-total scene children mid.0 there h.1 in (rest.0, rw (mid.1) rest.1)

    process_nodes-total :
        (scene : AiScene V) (ns : AiNodes) (mesh : Mesh V)
        → MaterialsBelow (length scene.m_materials) scene.m_meshes
        → AllInScene (length scene.m_meshes) ns
        → (out : Mesh V) × (process_nodes scene ns mesh ≡ some out)
    process_nodes-total scene no_nodes mesh there h = (mesh, refl)
    process_nodes-total scene (more_nodes n ns) mesh there h =
        let mid = process_node-total scene n mesh there h.0 in
        let rest = process_nodes-total scene ns mid.0 there h.1 in (rest.0, rw (mid.1) rest.1)

  -- On a scene whose faces, materials and nodes stay in range, processing the root makes no access out
  -- of range of the scene's meshes and materials, and every index of the mesh that it puts together is that of a vertex, as long as the vertices'
  -- number fits a u32.
  pub process_node_lem :
      (scene : AiScene V) (root : AiNode)
      → FacesInBounds scene.m_meshes
      → MaterialsBelow (length scene.m_materials) scene.m_meshes
      → InScene (length scene.m_meshes) root
      → (out : Mesh V) × (process_node scene root empty_mesh ≡ some out)
        × (length out.vertexbuffer < 2 ^ 32 → InBounds out)
  process_node_lem scene root faces there nodes =
      let (out, run) = process_node-total scene root empty_mesh there nodes in
      (out, run, (process_node-Extends scene root empty_mesh out faces run).1 tt)
