-- ===== src/Anim.antt =====
-- src/backend/animator.h and animator.cpp: the frames that animate one property of one filter, and
-- the list of them. A property's value is text; frame numbers are sizes (size_t).
pub mod Frame
pub mod Remove
pub mod Conflicts
pub mod Held
