-- ===== src/Lib.antt =====
-- Verification library of the Andromeda editor of the ESP32 particulate sensor.
--
-- Andromeda is a desktop editor. Its engine keeps entities in an entity-component registry, passes
-- key, mouse and sensor messages through an event manager, and shows the scene in panels. All paths
-- below are relative to andromeda/modules.
--
-- Prelude                  shared tests, list operations, and lists without repeated members
-- Ecs/Pool                 core/a_registry.hpp, `ComponentPool`: add, has, get, removeEntity,
--                          serializePool, deserializePool
-- Ecs/Registry             core/a_registry.hpp, `ComponentRegistry` and `EntityHandle`: createEntity,
--                          destroyEntity, rebuildActiveEntities, clearRegistry, getPool, addComponent,
--                          hasComponent
-- Events                   core/a_event_manager.hpp, `EventManager`: AddEventListener,
--                          RemoveEventListener, Dispatch, ClearPendingListeners, and
--                          definitions/Engine/a_EventTypes.hpp
-- Undo                     editor/a_undo_buffer.hpp and .cpp: pushCommand, deleteCommand, appendBytes,
--                          undo; editor/a_command_dispatcher.cpp; the generated command types and
--                          jump table in definitions. undo writes to the pools of Ecs/Registry
-- Console                  gui/Widgets/Console.h and .cpp: parseInput, execCommand, the history and
--                          completion callbacks; the submission in gui/Panels/a_ConsolePanel.cpp
-- Filesystem               filesystem/a_filesystem.hpp and .cpp: findDeviceTypeByPath, getFileName and
--                          the listings, over the entries that the file system reports
-- Resource                 resource/resource_manager.h and .cpp: the tables of models,
--                          registerCustomMesh, loadScene with processNode, the lookups; it asks
--                          Filesystem for names and device types
-- Resource/Caches          the shader and material caches of resource/resource_manager.cpp
-- Resource/Cubemap         its faces of cubemaps: MapCubemapFacesLDR, loadAndStoreCubemap
-- Resource/Primitives      resource/a_primitiveGenerator.hpp: cube, plane and sphere
-- Network/Proxy            network/a_network_info.hpp: getProxySettings, hasProxysettings
-- Network/Queue            core/a_threadSafeQueue.hpp, the stream of network/a_tcp_sensor_client.cpp
--                          that fills it, NetworkManager::update of network/a_network_manager.cpp
--                          that empties it into the event manager; steps of the two threads
-- Network/HomeAssistant    network/a_HomeAssistant.hpp and .cpp: update, handleMessage,
--                          handleAuthMessage; send of network/a_BoostWebsocketClient.cpp
-- Network/Websocket        network/a_BoostWebsocketClient.hpp and .cpp: doConnect, doDisconnect,
--                          send with doSend, doReadLoop, as steps of one strand
-- Scene                    serialization/sceneSerializer.cpp: save and load of the pools of
--                          Ecs/Registry, with the meshes' names of Resource; Scene/File is the file
-- Scene/Json               definitions/ECS/a_component_parser.hpp and
--                          definitions/Math/a_glm_json_parser.hpp: to_json and from_json of components
-- Scene/Entities           scene/scene.hpp and .cpp, `SceneManager`: addEntity, deleteEntity over
--                          Ecs/Registry
-- Editor                   editor/editor.cpp: editorPicking, with gui/State/a_SelectionContext.hpp
-- Editor/Listeners         its start and destroy: the three listeners, over Events, Undo and Input
-- Editor/Hierarchy         gui/Panels/a_HierarchyPanel.cpp: containsIgnoreCase and the filter,
--                          selectEntity, the nodes with their menu, beginRename, drawRenamingInput
-- Editor/Browser           gui/Panels/a_BrowserPanel.cpp: renderGrid, handleTile, handleDragAndDrop,
--                          over Resource and Scene/Entities
-- Editor/Spawn             spawnPrimitive of gui/Panels/a_HierarchyPanel.cpp, over the same
-- Input                    input/input_manager.hpp and .cpp: updateEvent, sdlKeyToAndromeda,
--                          sdlMouseBtnToAndromeda, isKeyHeld, over definitions/Engine/a_Keycodes.hpp
-- Reflector                tools/shader_reflector/main.cpp, outside of modules: the structs written
--                          for the blocks of shaders
-- Reflector/Annotations    its parser of annotations, shader_comment_parser.hpp
-- Reflector/Run            its main: the search for sources and the run over the inputs
-- Rhi/Passes               renderer_rhi/OpenGL/a_OpenGLContext.cpp: setRenderPassSpecs
-- Rhi/Framebuffer          renderer_rhi/OpenGL/a_opengl_framebuffer.cpp: destroy, invalidate, resize
-- Rhi/Material             renderer_rhi/a_Material.hpp: setParameter, setUBOData, bind
-- Subsystems               core/a_subsystem_manager.hpp and .cpp: the calls of all subsystems, the frame
--                          clock, getSubsystem
--
-- Records stand for the structs, with the fields' names; `std::vector` is a list, `std::map` a
-- function into options or an association list; u32, u16, u8 and size_t are natural numbers with
-- the wrap-around written out. An access out of range or a failed assertion is `none`, and a use of
-- an iterator that a push_back has made invalid is `undefined`. What the sources call and what is
-- not theirs is a parameter: component types, callbacks, type indices.
-- Strings are lists of bytes. A thrown exception is a case of the result.
--
-- Loops are structural recursion. The nesting of dispatches is bounded by fuel, since a callback may
-- dispatch again without end; one level is enough for callbacks that do not call the manager, which
-- the theorem on the order of calls shows. Everything else ends by itself.
--
-- What OpenGL does is not modelled: a call of it is a value, and the names that it hands out are a
-- parameter.
--
-- Not modelled: the drawing of the panels with ImGui, the calls of SDL, the float geometry of the
-- camera and the renderer, the shaders, the weather service and the launcher. Libraries of others (the
-- text of JSON, Assimp, stb_image, Boost, SPIRV-Reflect) are parameters, with no assumption on them but
-- what a theorem's hypotheses say. The pointers in an imported scene are taken not to be null,
-- callbacks of events that throw are left out, and paths have the separator of POSIX.
pub mod Prelude
pub mod Ecs
pub mod Events
pub mod Undo
pub mod Console
pub mod Filesystem
pub mod Resource
pub mod Network
pub mod Scene
pub mod Input
pub mod Reflector
pub mod Rhi
pub mod Editor
pub mod Subsystems
