-- ===== src/Python.antt =====
-- What the modules share of Python's values: decoded JSON, integers, and texts as lists of code points.
pub mod Numbers
pub mod Json
pub mod Words
pub mod Digests
