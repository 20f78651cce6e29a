-- ===== src/Lib.antt =====
-- 3Depict analyses and draws atom probe data. The user builds a tree of filters, through which data
-- streams are passed; the program keeps the tree with its undo history, a table of key frames that
-- animate the properties of filters, and a layer of helpers for text and vectors that filters, state
-- files and dialogs share.
--
-- Which file models what (paths from the repository's root):
--
-- - Prelude: Boolean tests and lists over the native numbers. A string is the list of its bytes.
-- - Text: src/common/stringFuncs.cpp and `stream_cast` of src/common/basics.h. Text/Split is
--   `splitStrsRef`, which reads up to the first NUL, Text/Decimal the numbers that `stream_cast`
--   reads and writes, Text/Strip
--   `stripChars` and `boolStrDec`, Text/Hex `ucharToHexStr` and `hexStrToUChar`, Text/Choice the
--   choice strings of property grids, Text/Digits `digitString`, Text/Paths `splitFileData`,
--   Text/Letters case, empty entries and markers, Text/Version version strings. Text/Find is the
--   part of std::string that these use.
-- - Basics: src/common/basics.h and basics.cpp. Basics/Ranges is `rangesOverlap` and `getBitNum`,
--   Basics/Sort the order that `std::sort` gives, Basics/Erase `vectorMultiErase` and erasing by
--   position, Basics/Ids and Basics/IdMoves `UniqueIDHandler`.
-- - Anim: src/backend/animator.cpp. Anim/Frame is `FrameProperties`, Anim/Remove the list of key
--   frames of `PropertyAnimator` with removal and `updateMappings`, Anim/Conflicts
--   `checkSelfConsistent`, Anim/Held the choice of a key frame in `getInterpolatedFilterData`.
-- - State: src/backend/state.cpp. State/Undo is the undo and redo stacks of `TreeState`, over a
--   type of trees and its copy constructor, State/Limits their invariant, State/FilterMap the
--   choice of an id in `addFilter`, State/Stashes and State/Merge the stashed trees and cameras of
--   `AnalysisState`.
-- - Tree: src/backend/filtertree.cpp. Tree/Order is `isChild` and the loop over a filter and what is
--   below it, over what tree.hh answers (size, depth, parent in a pre-order), Tree/Caches and
--   Tree/Cleared the operations that clear caches, Tree/Hazards `stripHazardousContents`, Tree/Masks
--   and Tree/Blocks `getAccumulatedPropagationMaps`, Tree/Starts and Tree/Seeds
--   `getFilterRefreshStarts`, Tree/Collector and Tree/Owned `FilterRefreshCollector`, Tree/Outputs
--   `safeDeleteFilterList` and the scrubbing of the output, and Tree/Refresh, Tree/Flow, Tree/Calls
--   and Tree/Bases the loop of `refreshFilterTree`, over the filters' own `refresh`. A filter is its
--   position in the pre-order; tree.hh comes in as a record of its answers with the laws of a
--   pre-order. The loops that begin at `begin_breadth_first` hold the result in a
--   `tree<Filter *>::iterator`, tree.hh's pre-order iterator, so that they too walk in pre-order.
--   Tree/Paths is `serialiseToStringPaths` with the search for a free path in Tree/Paths/Nonce, which
--   tries one count more than there are paths, and its stack in Tree/Paths/Named.
--   Tree/Xml is `saveXML` and Tree/Load `loadXML`, Tree/Reload what one makes of the other's file: the
--   text between the tags counts as text, libxml2 hands over the elements, and what a filter writes
--   between its own tags is the filter's. The loop of `loadXML` runs on twice the number of nodes,
--   since each round takes one. Not in it: the file names of packages, and adding, copying and
--   removing nodes.
-- - Surface: the isosurfaces of src/gl/isoSurface.cpp and the edges of src/common/voxels.h. Surface/Edges
--   is the numbers of edges with Surface/Unique, Surface/Flags and Surface/Table the two tables of
--   `marchingCubes`, Surface/Cube its loop over the cells, Surface/Bits the bits of its index,
--   Surface/Check and Surface/Faces the tables against the cube, Surface/March and Surface/Grid the
--   triangles of one cell and of all, Surface/Ends the edges they are on, Surface/Closed how they fit
--   together. Whether a voxel is at most the value of the surface is a parameter; the positions and
--   normals in floating point are not in it, and size_t does not wrap around.
-- - Filter: src/backend/filter.cpp and filter.h. Filter/Keys is `muxKey` and `demuxKey` over 32 bits,
--   Filter/Props `FilterPropGroup`, Filter/Consistent and Filter/Lookup its invariant and look-ups.
-- - Surface/Remove is `removeElements` of src/gl/isoSurface.cpp, Surface/Removed what it leaves.
-- - Basics/Select is the transfer of `randomSelect` and `randomDigitSelection` of src/common/basics.h
--   from sorted ticks, Basics/Selected, Basics/Misread and Basics/Vacancies what comes out. The draws of random
--   numbers, and the memory behind the ticks that the loops read, are parameters.
-- - Tests: runs of the definitions, and the theorems at concrete inputs.
--
-- The tree, the animator and the state use the helpers: `safeDeleteFilterList` and `updateMappings`
-- erase by `vectorMultiErase`, `checkSelfConsistent` asks `rangesOverlap`, `eraseStashes` and `removeKeyFrames` share the loop of
-- Basics/Erase and Anim/Remove over sorted positions.
--
-- Numbers are natural numbers. A size_t or unsigned int keeps its bound or its wrap-around where the
-- code reaches it: `stream_cast` fails above 2^32 - 1, `size() - 1` of an empty string is 2^64 - 1,
-- `getMinFrame` starts at the largest size_t. Loops over a list recur on the list. The loops on fuel
-- are `dec`, whose fuel is above the number and so above the count of its digits, and `getBitNum`,
-- whose fuel is above the count of the word's bits. An assertion or an exception that stops the code
-- is `none`. std::sort is taken as a stable sort: the standard fixes the order of equal keys no
-- further, and the positions that the code sorts are distinct.
--
-- Not modelled: the floating-point values (interpolation, meshes, spectra, the places and normals of
-- isosurfaces, random draws), the files of ranges, images and settings, the changes of the tree's
-- topology, OpenGL and the dialogs, and tree.hh, a library that the sources copy.
pub mod Prelude
pub mod Basics
pub mod Text
pub mod Anim
pub mod State
pub mod Tree
pub mod Filter
pub mod Surface
mod Tests
