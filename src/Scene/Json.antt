-- ===== src/Scene/Json.antt =====
-- The JSON values of components: definitions/ECS/a_component_parser.hpp and
-- definitions/Math/a_glm_json_parser.hpp over the structs of definitions/ECS/a_components.hpp. `F` are the floats. `none` is an exception.
pub mod RoundTrip
use esp32_particulate_sensor.Prelude.{ℕ, zero, Option, none, some, if◌then◌else◌, ◌>>=◌}
use esp32_particulate_sensor.Prelude.Strings.{Str, eq_str, codes}
use esp32_particulate_sensor.Scene.{
  ComponentType, transform, tag, material, mesh_renderer_type, aabb, device, particle_system,
}

-- The values of `nlohmann::json` that these conversions meet.
mutual
  pub data Json (F : Type 0) : Type 0 where
    null : Json F
    number : F → Json F
    integer : ℕ → Json F
    string : Str → Json F
    array : Elements F → Json F
    object : Fields F → Json F

  pub data Elements (F : Type 0) : Type 0 where
    no_elements : Elements F
    element : Json F → Elements F → Elements F

  pub data Fields (F : Type 0) : Type 0 where
    no_fields : Fields F
    with_field : Str → Json F → Fields F → Fields F

pub record Vec3 (F : Type 0) : Type 0 where
  pub x : F
  pub y : F
  pub z : F

pub record Quat (F : Type 0) : Type 0 where
  pub x : F
  pub y : F
  pub z : F
  pub w : F

-- The structs of the components: a Transform by position, rotation and scale, an AABB by min, max and
-- center. A Device and a ParticleSystem, which are saved but never loaded, are given as their values.
pub data Component (F : Type 0) : Type 0 where
  transform_of : Vec3 F → Quat F → Vec3 F → Component F
  aabb_of : Vec3 F → Vec3 F → Vec3 F → Component F
  tag_of : Str → Component F
  material_of : Str → Component F
  mesh_renderer_of : ℕ → Component F
  device_of : Json F → Component F
  particle_system_of : Json F → Component F

module _ {F : Type 0} where
  abbrev pub type_of : Component F → ComponentType
  type_of (transform_of p q s) = transform
  type_of (aabb_of a b c) = aabb
  type_of (tag_of n) = tag
  type_of (material_of n) = material
  type_of (mesh_renderer_of i) = mesh_renderer_type
  type_of (device_of j) = device
  type_of (particle_system_of j) = particle_system

  -- `meshID`, of a MeshRenderer.
  abbrev pub mesh_id : Component F → ℕ
  mesh_id (mesh_renderer_of i) = i
  mesh_id c = 0

  unfoldable pub json_of_vec3 : Vec3 F → Json F
  json_of_vec3 v =
      array (element (number v.x) (element (number v.y) (element (number v.z) no_elements)))

  unfoldable pub json_of_quat : Quat F → Json F
  json_of_quat q = object (
      with_field (codes "x") (number q.x) (
        with_field (codes "y") (number q.y)
          (with_field (codes "z") (number q.z) (with_field (codes "w") (number q.w) no_fields))))

  unfoldable pub to_json : Component F → Json F
  unfolding json_of_vec3 json_of_quat
  to_json (transform_of position rotation scale) = object (
      with_field (codes "position") (json_of_vec3 position) (
        with_field (codes "rotation") (json_of_quat rotation)
          (with_field (codes "scale") (json_of_vec3 scale) no_fields)))
  to_json (aabb_of min max center) = object (
      with_field (codes "min") (json_of_vec3 min) (
        with_field (codes "max") (json_of_vec3 max)
          (with_field (codes "center") (json_of_vec3 center) no_fields)))
  to_json (tag_of name) = object (with_field (codes "name") (string name) no_fields)
  to_json (material_of name) = object (with_field (codes "materialName") (string name) no_fields)
  to_json (mesh_renderer_of id) = object (with_field (codes "meshID") (integer id) no_fields)
  to_json (device_of j) = j
  to_json (particle_system_of j) = j

  -- `at` of an object.
  abbrev pub find_field : Str → Fields F → Option (Json F)
  find_field key no_fields = none
  find_field key (with_field k j fields) = if eq_str k key then some j else find_field key fields

  abbrev pub at : Str → Json F → Option (Json F)
  at key (object fields) = find_field key fields
  at key j = none

  abbrev pub get_string : Json F → Option Str
  get_string (string s) = some s
  get_string j = none

  abbrev pub get_integer : Json F → Option ℕ
  get_integer (integer n) = some n
  get_integer j = none

-- `float_of` makes a float of an integer in the text.
module _ {F : Type 0} (float_of : ℕ → F) where
  abbrev pub get_float : Json F → Option F
  get_float (number x) = some x
  get_float (integer n) = some (float_of n)
  get_float j = none

  -- An array of three numbers.
  abbrev pub three : Elements F → Option (Vec3 F)
  three (element a (element b (element c no_elements))) = do
    x ← get_float a
    y ← get_float b
    z ← get_float c
    some (record { x = x; y = y; z = z })
  three es = none

  unfoldable pub vec3_of_json : Json F → Option (Vec3 F)
  vec3_of_json (array elements) = three elements
  vec3_of_json j = none

  unfoldable pub quat_of_json : Json F → Option (Quat F)
  quat_of_json j = do
    x ← at (codes "x") j >>= get_float
    y ← at (codes "y") j >>= get_float
    z ← at (codes "z") j >>= get_float
    w ← at (codes "w") j >>= get_float
    some (record { x = x; y = y; z = z; w = w })

  unfoldable pub from_json : ComponentType → Json F → Option (Component F)
  unfolding vec3_of_json quat_of_json
  from_json transform j = do
    position ← at (codes "position") j >>= vec3_of_json
    rotation ← at (codes "rotation") j >>= quat_of_json
    scale ← at (codes "scale") j >>= vec3_of_json
    some (transform_of position rotation scale)
  from_json aabb j = do
    min ← at (codes "min") j >>= vec3_of_json
    max ← at (codes "max") j >>= vec3_of_json
    center ← at (codes "center") j >>= vec3_of_json
    some (aabb_of min max center)
  from_json tag j = do name ← at (codes "name") j >>= get_string; some (tag_of name)
  from_json material j = do
    name ← at (codes "materialName") j >>= get_string
    some (material_of name)
  from_json mesh_renderer_type j = do
    id ← at (codes "meshID") j >>= get_integer
    some (mesh_renderer_of id)
  from_json device j = some (device_of j)
  from_json particle_system j = some (particle_system_of j)
