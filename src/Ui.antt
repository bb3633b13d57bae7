-- ===== src/Ui.antt =====
-- frontend/client/src/components/ui: the parts of the component kit with state of their own, as they
-- stand in this repository (the same files are in frontend/src/components/ui).
pub mod Sidebar
pub mod Carousel
pub mod Chart
pub mod MapView
