-- ===== src/Structs.antt =====
-- structs/: the containers that the actor runtime is built from, one module for each file.
pub mod Map
pub mod Set
pub mod BoolValue
pub mod Status
pub mod QuadHeap
pub mod Ring
