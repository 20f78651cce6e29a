-- ===== src/Tests.antt =====
-- Runs of the definitions on concrete inputs, and the theorems at inputs that meet their hypotheses.
mod Strings
mod Numbers
mod Frames
mod UndoRedo
mod Trees
mod Refresh
mod Ids
mod Flow
mod Reload
mod Surface
mod Filter
