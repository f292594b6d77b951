-- ===== src/Types.antt =====
-- The data types of the portable API: src/roo_wifi/{status,network,configuration,operation,
-- profile,radio}.h. A C++ enum that can be cast from a stored byte keeps every byte value:
-- `unnamed n` is the value n places above its last enumerator.
mod Results
mod Network
mod Config
mod Operation
mod Radio
unfoldable pub use Results.*
unfoldable pub use Network.*
unfoldable pub use Config.*
unfoldable pub use Operation.*
unfoldable pub use Radio.*
