-- ===== src/Game.antt =====
-- The game program (src/exe-game): keyboard input, the window's message handling, the textures of
-- the renderer.
pub mod Input
pub mod Window
pub mod Renderer
