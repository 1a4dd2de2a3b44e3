-- ===== src/Maker.antt =====
-- src/maker.hpp: the generator of the site.
pub mod Posts
pub mod Cache
pub mod Build
pub mod Site
pub mod Make
mod Witnesses
